-- ===== src/Base/Membership.antt =====
-- The tests over a list against membership.
use mathlib.Core.Path.{◌≡◌, refl, sym}
use mathlib.Core.Bool.{Bool, true}
use mathlib.Core.List.{List, [], ◌∷◌, Memᴰ}
use mathlib.Core.Logic.{inl, inr}
use native.Mathlib.Omega.{arith}
use jwt_service_app.Base.Lists.{any}
use jwt_service_app.Base.Tests.{Bool-cases}

module _ {A : Type 0} where
  pub any-Memᴰ : (f : A → Bool) (l : List A) → any f l ≡ true → (x : A) × Memᴰ x l × (f x ≡ true)
  any-Memᴰ f [] h = absurd (cc h)
  any-Memᴰ f (x ∷ xs) h = elim (Bool-cases (f x)) [
    | inl yes' ↦ (x, Memᴰ.head refl, yes')
    | inr no' ↦ let (y, m, yes') = any-Memᴰ f xs (rw no' at h) in (y, Memᴰ.tail m, yes')
  ]

  pub Memᴰ-any : (f : A → Bool) {x : A} (l : List A) → Memᴰ x l → f x ≡ true → any f l ≡ true
  Memᴰ-any f [] m h = elim m [ ]
  Memᴰ-any f (y ∷ xs) (Memᴰ.head same) h = rw (sym same, h) refl
  Memᴰ-any f (y ∷ xs) (Memᴰ.tail m) h = ground (arith, Memᴰ-any f xs m h)
