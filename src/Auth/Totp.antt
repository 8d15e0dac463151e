-- ===== src/Auth/Totp.antt =====
-- auth.rs: what `TotpValidator` accepts, and how long a code can be accepted.
use jwt_service_app.Base.{
  ℕ, zero, suc, ◌+◌, ◌-◌, ◌*◌, ◌/◌, ◌%◌, ◌^◌, ◌≤◌, ◌<◌, ◌≡◌, ◌↔◌, sym, ap, ◌∙◌, Bool, true, false,
  ◌||◌, Bool-cases, some, Option-cases, List, [], ◌∷◌, any, ltb, arith, inl, inr, if◌then◌else◌,
}
use jwt_service_app.Base.Membership.{any-Memᴰ, Memᴰ-any}
use mathlib.Core.List.{Memᴰ}
use native.Mathlib.Nat.{
  mul-add, mul-le-mul_right, mul-le-mul_left, mod-eq_of_lt, div-add-mod, mod-lt,
}
use jwt_service_app.Auth.Hotp.{Hmac}
use jwt_service_app.Auth.Validators.{
  Headers, TotpValidator, windows, matches, window_loop, secret_loop, window_range, totp_validate,
  saturating_add, replay_window_seconds,
}

windows-Memᴰ : (low n c : ℕ) → Memᴰ c (windows low n) → (low ≤ c) × (c < low + n)
unfolding windows
windows-Memᴰ low zero c m = elim m [ ]
windows-Memᴰ low (suc n) c (Memᴰ.head same) = (omega (arith, same), omega (arith, same))
windows-Memᴰ low (suc n) c (Memᴰ.tail m) =
    let (lo, hi) = windows-Memᴰ (low + 1) n c m in (omega (arith, lo), omega (arith, hi))

Memᴰ-windows : (low n c : ℕ) → low ≤ c → c < low + n → Memᴰ c (windows low n)
unfolding windows
Memᴰ-windows low zero c lo hi = absurd (omega (arith, lo, hi))
Memᴰ-windows low (suc n) c lo hi = elim (Bool-cases (ltb low c)) [
  | inl later ↦ Memᴰ.tail (Memᴰ-windows (low + 1) n c (ground arith) (ground arith))
  | inr now ↦ Memᴰ.head (ground arith)
]

-- The moment's counter is at most `skew` steps from `c`.
abbrev pub InWindow : TotpValidator → ℕ → ℕ → Type 0
InWindow v now c = (now / v.step ≤ c + v.skew) × (c ≤ now / v.step + v.skew)

-- The counters that are tried at a moment are those at most `skew` steps away, none missing.
pub window_range-Memᴰ :
    (hmac : Hmac) (v : TotpValidator) (now c : ℕ)
    → now / v.step + v.skew < 2 ^ 64
    → Memᴰ c (window_range hmac v now) ↔ InWindow v now c
unfolding window_range
window_range-Memᴰ hmac v now c small =
    let high : saturating_add (now / v.step) v.skew ≡ now / v.step + v.skew = ground arith in
    (
      λ m.
          let (lo, hi) =
            windows-Memᴰ (now / v.step - v.skew)
              (suc (saturating_add (now / v.step) v.skew - (now / v.step - v.skew))) c m in
          (omega (arith, lo), ground (arith, hi, high)),
      λ near.
          Memᴰ-windows (now / v.step - v.skew)
            (suc (saturating_add (now / v.step) v.skew - (now / v.step - v.skew))) c
            (omega (arith, near.0)) (ground (arith, near.1, high)),
    )

module _ (hmac : Hmac) (v : TotpValidator) where
  window_loop-any :
      (provided secret : List ℕ) (matched : Bool) (cs : List ℕ)
      → window_loop hmac v provided secret matched cs
        ≡ (matched || any (matches hmac v provided secret) cs)
  unfolding window_loop
  window_loop-any provided secret matched [] = ground arith
  window_loop-any provided secret matched (c ∷ cs) = ground (
    arith,
    window_loop-any provided secret (if matches hmac v provided secret c then true else matched) cs,
  )

  secret_loop-any :
      (provided cs : List ℕ) (matched : Bool) (secrets : List (List ℕ))
      → secret_loop hmac v provided cs matched secrets
        ≡ (matched || any (λ secret. any (matches hmac v provided secret) cs) secrets)
  unfolding secret_loop
  secret_loop-any provided cs matched [] = ground arith
  secret_loop-any provided cs matched (secret ∷ secrets) = ground (
    arith,
    window_loop-any provided secret matched cs,
    secret_loop-any provided cs (window_loop hmac v provided secret matched cs) secrets,
  )

  -- A validator accepts exactly the requests whose header carries the code of one of its secrets in
  -- one of the windows around the moment.
  pub totp_validate_iff :
      (headers : Headers) (now : ℕ)
      → now / v.step + v.skew < 2 ^ 64
      → (totp_validate hmac v headers now ≡ true) ↔ (
          (provided : List ℕ) × (secret : List ℕ) × (c : ℕ) × (headers v.header ≡ some provided)
          × Memᴰ secret v.secrets
          × InWindow v now c
          × (matches hmac v provided secret c ≡ true))
  unfolding totp_validate
  totp_validate_iff headers now small = (
    λ h. elim (Option-cases (headers v.header)) [
      | inl missing ↦ absurd (cc (rw (missing, totp_validate) at h))
      | inr (provided, there) ↦
          let tried : any (λ secret. any (matches hmac v provided secret) (window_range hmac v now))
                v.secrets
              ≡ true =
            sym (secret_loop-any provided (window_range hmac v now) false v.secrets)
            ∙ (rw (there, totp_validate) at h) in
          let (secret, listed, some_window) = any-Memᴰ _ v.secrets tried in
          let (c, near, match') =
            any-Memᴰ (matches hmac v provided secret) (window_range hmac v now) some_window in
          (
            provided,
            secret,
            c,
            there,
            listed,
            (window_range-Memᴰ hmac v now c small).0 near,
            match',
          )
    ],
    λ (provided, secret, c, there, listed, near, match').
        rw (there, totp_validate)
          (secret_loop-any provided (window_range hmac v now) false v.secrets
            ∙ Memᴰ-any _ v.secrets listed (
                Memᴰ-any (matches hmac v provided secret) (window_range hmac v now)
                  ((window_range-Memᴰ hmac v now c small).1 near) match')),
  )

-- A code that is accepted for one counter at two moments is accepted within the time for which the
-- replay protection keeps it, as long as that time is a 64-bit number.
pub replay_window_seconds-covers :
    (v : TotpValidator) (c now later : ℕ)
    → 1 ≤ v.step
    → v.step * (2 * v.skew + 1) < 2 ^ 64
    → InWindow v now c
    → InWindow v later c
    → later < now + replay_window_seconds v
unfolding replay_window_seconds
replay_window_seconds-covers v c now later positive small first second =
    let width : 2 * v.skew + 1 ≤ v.step * (2 * v.skew + 1) =
      omega (arith, mul-le-mul_right (2 * v.skew + 1) positive) in
    let kept : replay_window_seconds v ≡ v.step * (2 * v.skew + 1) =
      ap (λ n. v.step * n % 2 ^ 64) (mod-eq_of_lt (omega (arith, width, small)))
      ∙ mod-eq_of_lt small in
    let steps : v.step * (later / v.step) ≤ v.step * (now / v.step + 2 * v.skew) =
      mul-le-mul_left v.step (omega (arith, first.1, second.0)) in
    omega (
      arith,
      kept,
      steps,
      mul-add v.step (now / v.step) (2 * v.skew),
      mul-add v.step (2 * v.skew) 1,
      div-add-mod now v.step,
      div-add-mod later v.step,
      mod-lt later positive,
    )
