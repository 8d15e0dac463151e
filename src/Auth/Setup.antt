-- ===== src/Auth/Setup.antt =====
-- auth.rs `AuthConfig::from_env`: what a configuration that it returns holds.
use jwt_service_app.Base.{
  ℕ, ◌≤◌, ◌≡◌, refl, sym, ap, subst, Bool, false, Bool-cases, Option, none, some, Option-cases,
  List, [], ◌∷◌, ◌++◌, is_empty, length, All, ok, ok-injective, arith, inl, inr,
}
use jwt_service_app.Base.Text.{Text, codes, trim, as_bytes, as_bytes-length}
use jwt_service_app.Env.{Env, env_u64}
use jwt_service_app.Auth.Base32.{base32_decode}
use jwt_service_app.Auth.Config.{
  AuthConfig, Problem, read_secret, clamp, totp_from_env, from_env, nonempty, proxy_problem,
  totp_problem, assembled, decoded,
}

pub clamp-bounds : (n lo hi : ℕ) → lo ≤ hi → (lo ≤ clamp n lo hi) × (clamp n lo hi ≤ hi)
unfolding clamp
clamp-bounds n lo hi h = (ground arith, ground arith)

abbrev NonEmpty : List ℕ → Type 0
NonEmpty l = 1 ≤ length l

-- What the service relies on at startup.
pub record IsWellConfigured (config : AuthConfig) : Type 0 where
  pub proxy_secret : 1 ≤ length config.proxy.secret
  pub some_totp_secret : 1 ≤ length config.totp.secrets
  pub totp_secrets : All NonEmpty config.totp.secrets
  pub digits_low : 6 ≤ config.totp.digits
  pub digits_high : config.totp.digits ≤ 8
  pub step : 1 ≤ config.totp.step

decoded-All : (var : Text) (o : Option (List ℕ)) → All NonEmpty (decoded var o).1
decoded-All var none = tt
decoded-All var (some []) = tt
decoded-All var (some (b ∷ bytes)) = (omega arith, tt)

read_secret-All : (env : Env) (var : Text) → All NonEmpty (read_secret env var).1
unfolding read_secret
read_secret-All env var = elim (Option-cases (env var)) [
  | inl missing ↦ rw (missing, read_secret) tt
  | inr (raw, there) ↦ elim (Bool-cases (is_empty (trim raw))) [
    | inl blank ↦ rw (there, read_secret, blank) tt
    | inr text ↦ rw (there, read_secret, text) (decoded-All var (base32_decode raw))
  ]
]

All-append : (P : List ℕ → Type 0) (l m : List (List ℕ)) → All P l → All P m → All P (l ++ m)
All-append P [] m hl hm = hm
All-append P (x ∷ l) m (h, hl) hm = (h, All-append P l m hl hm)

nonempty-some : (o : Option Text) (s : Text) → nonempty o ≡ some s → is_empty s ≡ false
nonempty-some none s h = absurd (cc h)
nonempty-some (some []) s h = absurd (cc h)
nonempty-some (some (c ∷ t)) s h = ap is_empty_or (sym h)
  where
    is_empty_or : Option Text → Bool
    is_empty_or none = false
    is_empty_or (some t') = is_empty t'

as_bytes-NonEmpty : (s : Text) → is_empty s ≡ false → NonEmpty (as_bytes s)
as_bytes-NonEmpty [] h = absurd (cc h)
as_bytes-NonEmpty (c ∷ s) h = as_bytes-length c s

totp_problem-some :
    (proxy first next : List Problem) (secrets : List (List ℕ))
    → (proxy ++ (first ++ (next ++ totp_problem secrets))) ≡ []
    → 1 ≤ length secrets
totp_problem-some [] [] [] [] h = absurd (cc h)
totp_problem-some [] [] [] (s ∷ secrets) h = omega arith
totp_problem-some [] [] (p ∷ next) secrets h = absurd (cc h)
totp_problem-some [] (p ∷ first) next secrets h = absurd (cc h)
totp_problem-some (p ∷ proxy) first next secrets h = absurd (cc h)

assembled-IsWellConfigured :
    (env : Env) (problems : List Problem) (proxy : Option Text) (secrets : List (List ℕ))
    (config : AuthConfig)
    → All NonEmpty secrets
    → ((problems ≡ []) → 1 ≤ length secrets)
    → nonempty (env (codes "AUTH_PROXY_SECRET")) ≡ proxy
    → assembled env problems proxy secrets ≡ ok config
    → IsWellConfigured config
unfolding totp_from_env
assembled-IsWellConfigured env [] none secrets config good some_secret is_proxy h = absurd (cc h)
assembled-IsWellConfigured env (p ∷ problems) proxy secrets config good some_secret is_proxy h =
    absurd (cc h)
assembled-IsWellConfigured env [] (some secret) secrets config good some_secret is_proxy h =
    let (low, high) = clamp-bounds (env_u64 env (codes "AUTH_TOTP_DIGITS") 6) 6 8 (omega arith) in
    subst IsWellConfigured (ok-injective h) (record {
      proxy_secret = as_bytes-NonEmpty secret (nonempty-some _ secret is_proxy);
      some_totp_secret = some_secret refl;
      totp_secrets = good;
      digits_low = low;
      digits_high = high;
      step = ground arith;
    })

-- A configuration with which the service starts has a proxy secret that is not empty, at least one
-- TOTP secret, no empty one, codes of 6 to 8 digits, and a step of at least one second.
pub from_env-IsWellConfigured :
    (env : Env) (config : AuthConfig) → from_env env ≡ ok config → IsWellConfigured config
unfolding from_env
from_env-IsWellConfigured env config h =
    assembled-IsWellConfigured env _ _ _ config
      (All-append NonEmpty (read_secret env (codes "AUTH_TOTP_SECRET")).1 _
        (read_secret-All env (codes "AUTH_TOTP_SECRET"))
        (read_secret-All env (codes "AUTH_TOTP_SECRET_NEXT")))
      (totp_problem-some (proxy_problem (nonempty (env (codes "AUTH_PROXY_SECRET"))))
        (read_secret env (codes "AUTH_TOTP_SECRET")).0
        (read_secret env (codes "AUTH_TOTP_SECRET_NEXT")).0 _)
      refl h
