-- ===== src/RateLimit/Bounds.antt =====
-- rate_limit.rs: for which settings there is a quota, and that an address range never reads out of
-- bounds.
use jwt_service_app.Base.{
  ℕ, ◌*◌, ◌/◌, ◌%◌, ◌≤◌, ◌<◌, ◌≡◌, ◌↔◌, refl, Bool, true, false, Bool-cases, none, some, List,
  length, get_elem?-some, take, ltb, ◌==◌, arith, inl, inr,
}
use Prim.Native.Nat.{bit_and}
use native.Mathlib.Nat.{div-lt_iff_lt-mul, div-eq_of_lt}
use jwt_service_app.Base.Text.{text_eq}
use jwt_service_app.RateLimit.Limiter.{quota, at_least_one}
use jwt_service_app.RateLimit.Address.{prefix_match, mask_of}

quotient_positive : (m : ℕ) → 1 ≤ m → m ≤ 1000000000 → 1 ≤ 1000000000 / m
quotient_positive m positive small = elim (Bool-cases (ltb (1000000000 / m) 1)) [
  | inl below ↦ absurd (
      omega (
        arith,
        small,
        (div-lt_iff_lt-mul {k = m} {x = 1000000000} {y = 1} positive).0 (ground arith),
      ))
  | inr fine ↦ ground arith
]

-- There is a quota exactly for the rates of at most 10 ^ 9 requests per second; above them the
-- period is zero, and building the limiter panics.
pub quota-none :
    (per_second burst : ℕ) → (quota per_second burst ≡ none) ↔ (1000000000 < per_second)
unfolding quota
quota-none per_second burst = elim (Bool-cases (ltb 1000000000 per_second)) [
  | inl above ↦
      let zero_period : 1000000000 / at_least_one per_second ≡ 0 = div-eq_of_lt (ground arith) in
      (λ h. ground arith, λ h. rw (quota, zero_period) refl)
  | inr within ↦
      let positive : 1 ≤ 1000000000 / at_least_one per_second =
        quotient_positive (at_least_one per_second) (ground arith) (ground arith) in
      let nonzero : (1000000000 / at_least_one per_second == 0) ≡ false =
        ground (arith, positive) in
      (λ h. absurd (cc (rw (nonzero, quota) at h)), λ h. absurd (ground arith))
]

-- Two addresses that hold the whole prefix are compared without reading out of bounds.
prefix_match-total :
    (a b : List ℕ) (prefix : ℕ)
    → prefix ≤ 8 * length a
    → prefix ≤ 8 * length b
    → (same : Bool) × (prefix_match a b prefix ≡ some same)
unfolding prefix_match
prefix_match-total a b prefix ha hb =
    let whole = prefix / 8 in
    elim (Bool-cases (text_eq (take whole a) (take whole b))) [
      | inr differ ↦ (false, ground (arith, differ, ha, hb))
      | inl agree ↦ elim (Bool-cases (prefix % 8 == 0)) [
        | inl even ↦ (true, ground (arith, agree, even, ha, hb))
        | inr odd ↦
            let (x, hx) = get_elem?-some a whole (ground (arith, odd, ha)) in
            let (y, hy) = get_elem?-some b whole (ground (arith, odd, hb)) in
            (
              bit_and x (mask_of (prefix % 8)) == bit_and y (mask_of (prefix % 8)),
              ground (arith, agree, odd, hx, hy, ha, hb),
            )
      ]
    ]
