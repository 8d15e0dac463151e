-- ===== src/Base/Lists.antt =====
-- Lists measured and indexed by native numbers, tests over a list, and predicates over a list.
use Prim.Native.Nat.{ℕ, zero, suc, ◌+◌, ◌<◌}
use mathlib.Core.Path.{◌≡◌, refl, sym, ap, ◌∙◌}
use mathlib.Core.Logic.{inl, inr}
use mathlib.Core.Bool.{Bool, true, false, ◌&&◌, ◌||◌}
use mathlib.Core.Option.{Option, none, some}
use mathlib.Core.List.{List, [], ◌∷◌, ◌++◌}
use native.Mathlib.Omega.{arith}
use jwt_service_app.Base.Tests.{ltb, if◌then◌else◌, Bool-cases, &&-true}

module _ {ℓ} {A : Type ℓ} where
  abbrev pub length : List A → ℕ
  length [] = 0
  length (x ∷ xs) = suc (length xs)

  abbrev pub take : ℕ → List A → List A
  take zero xs = []
  take (suc n) [] = []
  take (suc n) (x ∷ xs) = x ∷ take n xs

  abbrev pub drop : ℕ → List A → List A
  drop zero xs = xs
  drop (suc n) [] = []
  drop (suc n) (x ∷ xs) = drop n xs

  abbrev pub get_elem? : List A → ℕ → Option A
  get_elem? [] i = none
  get_elem? (x ∷ xs) zero = some x
  get_elem? (x ∷ xs) (suc i) = get_elem? xs i

  abbrev pub replicate : ℕ → A → List A
  replicate zero a = []
  replicate (suc n) a = a ∷ replicate n a

  abbrev pub is_empty : List A → Bool
  is_empty [] = true
  is_empty (x ∷ xs) = false

  -- Rust's `iter().any`, `iter().all` and `iter().find`.
  abbrev pub any : (A → Bool) → List A → Bool
  any p [] = false
  any p (x ∷ xs) = p x || any p xs

  abbrev pub all : (A → Bool) → List A → Bool
  all p [] = true
  all p (x ∷ xs) = p x && all p xs

  abbrev pub find : (A → Bool) → List A → Option A
  find p [] = none
  find p (x ∷ xs) = if p x then some x else find p xs

  pub length-append : (xs ys : List A) → length (xs ++ ys) ≡ length xs + length ys
  length-append [] ys = omega arith
  length-append (x ∷ xs) ys = omega (arith, length-append xs ys)

  pub length-replicate : (n : ℕ) (a : A) → length (replicate n a) ≡ n
  length-replicate zero a = refl
  length-replicate (suc n) a = omega (arith, length-replicate n a)

  pub get_elem?-some : (l : List A) (i : ℕ) → i < length l → (x : A) × (get_elem? l i ≡ some x)
  get_elem?-some [] i h = absurd (omega (arith, h))
  get_elem?-some (x ∷ l) zero h = (x, refl)
  get_elem?-some (x ∷ l) (suc i) h = get_elem?-some l i (omega (arith, h))

  pub get_elem?-all :
      (t : A → Bool) (l : List A) (i : ℕ) {x : A}
      → all t l ≡ true
      → get_elem? l i ≡ some x
      → t x ≡ true
  get_elem?-all t [] i h e = absurd (cc e)
  get_elem?-all t (y ∷ l) zero {x} h e =
      let same : y ≡ x = cc e in ap t (sym same) ∙ (&&-true (t y) (all t l) h).0
  get_elem?-all t (y ∷ l) (suc i) h e = get_elem?-all t l i (&&-true (t y) (all t l) h).1 e

  pub all-append : (t : A → Bool) (xs ys : List A) → all t (xs ++ ys) ≡ (all t xs && all t ys)
  all-append t [] ys = refl
  all-append t (x ∷ xs) ys = ground (arith, all-append t xs ys)

-- A test that holds below a bound, checked number by number.
abbrev pub all_below : ℕ → (ℕ → Bool) → Bool
all_below zero t = true
all_below (suc n) t = t n && all_below n t

pub all_below-at : (n : ℕ) (t : ℕ → Bool) (i : ℕ) → all_below n t ≡ true → i < n → t i ≡ true
all_below-at zero t i h small = absurd (omega (arith, small))
all_below-at (suc n) t i h small = elim (Bool-cases (ltb i n)) [
  | inl below ↦ all_below-at n t i (&&-true (t n) (all_below n t) h).1 (ground arith)
  | inr last ↦
      let same : n ≡ i = ground (arith, small) in
      ap t (sym same) ∙ (&&-true (t n) (all_below n t) h).0
]

-- `P` holds of every element, or of some element.
module _ {ℓ κ} {A : Type ℓ} (P : A → Type κ) where
  abbrev pub All : List A → Type κ
  All [] = Unit
  All (x ∷ xs) = P x × All xs
