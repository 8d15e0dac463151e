-- ===== src/Auth/Config.antt =====
-- auth.rs: `AuthConfig::from_env` and `authorize`.
use jwt_service_app.Base.{
  ℕ, Bool, true, false, ◌||◌, Option, none, some, List, [], ◌∷◌, ◌++◌, is_empty, ltb, Result, ok,
  err, if◌then◌else◌,
}
use jwt_service_app.Base.Text.{Text, codes, text_eq, trim, to_ascii_lowercase, as_bytes}
use jwt_service_app.Env.{Env, env_u64, unwrap_or}
use jwt_service_app.Auth.Base32.{base32_decode}
use jwt_service_app.Auth.Hotp.{Hmac, digest_by_name}
use jwt_service_app.Auth.Validators.{
  Headers, ProxyValidator, MetricsValidator, TotpValidator, proxy_validate, metrics_validate,
  totp_validate, code_fingerprint, replay_window_seconds,
}

pub data AuthLevel : Type 0 where
  open_level proxy_secret totp metrics_token : AuthLevel

pub record AuthConfig : Type 0 where
  pub proxy : ProxyValidator
  pub totp : TotpValidator
  pub metrics : MetricsValidator
  pub totp_replay_protection : Bool

-- The problems that `from_env` lists; `invalid_base32` is of the variable that it names.
pub data Problem : Type 0 where
  no_proxy_secret no_totp_secret : Problem
  invalid_base32 : Text → Problem

abbrev pub nonempty : Option Text → Option Text
nonempty none = none
nonempty (some s) = if is_empty s then none else some s

abbrev pub decoded : Text → Option (List ℕ) → List Problem × List (List ℕ)
decoded var (some (b ∷ bytes)) = ([], (b ∷ bytes) ∷ [])
decoded var _ = (invalid_base32 var ∷ [], [])

-- One round of the loop over the TOTP variables: its problem or its secret, if it is set.
unfoldable pub read_secret : Env → Text → List Problem × List (List ℕ)
unfolding base32_decode
read_secret env var = elim (env var) [
  | none ↦ ([], [])
  | some raw ↦ if is_empty (trim raw) then ([], []) else decoded var (base32_decode raw)
]

unfoldable pub clamp : ℕ → ℕ → ℕ → ℕ
clamp n lo hi = if ltb n lo then lo else if ltb hi n then hi else n

abbrev pub at_least_one : ℕ → ℕ
at_least_one n = if ltb n 1 then 1 else n

abbrev replay_flag : Option Text → Bool
replay_flag none = false
replay_flag (some v) =
    let low = to_ascii_lowercase (trim v) in
    text_eq low (codes "1") || text_eq low (codes "true") || text_eq low (codes "yes")

abbrev pub trimmed_token : Option Text → Option (List ℕ)
trimmed_token none = none
trimmed_token (some s) = if is_empty (trim s) then none else some (as_bytes (trim s))

abbrev pub proxy_problem : Option Text → List Problem
proxy_problem none = no_proxy_secret ∷ []
proxy_problem (some s) = []

abbrev pub totp_problem : List (List ℕ) → List Problem
totp_problem [] = no_totp_secret ∷ []
totp_problem (s ∷ secrets) = []

unfoldable pub totp_from_env : Env → List (List ℕ) → TotpValidator
unfolding clamp digest_by_name
totp_from_env env secrets = record {
  header = unwrap_or (codes "X-TOTP-Code") (env (codes "AUTH_TOTP_HEADER"));
  secrets = secrets;
  step = at_least_one (env_u64 env (codes "AUTH_TOTP_STEP_SECONDS") 30);
  digits = clamp (env_u64 env (codes "AUTH_TOTP_DIGITS") 6) 6 8;
  skew = env_u64 env (codes "AUTH_TOTP_SKEW_STEPS") 1;
  digest = digest_by_name (unwrap_or (codes "SHA1") (env (codes "AUTH_TOTP_ALGORITHM")));
}

-- With no problem there is a proxy secret; the last clause is the panic of `expect`, as no config.
abbrev pub assembled :
    Env → List Problem → Option Text → List (List ℕ) → Result (List Problem) AuthConfig
assembled env [] (some secret) secrets = ok (record {
  proxy = record {
    header = unwrap_or (codes "X-Proxy-Secret") (env (codes "AUTH_PROXY_SECRET_HEADER"));
    secret = as_bytes secret;
  };
  totp = totp_from_env env secrets;
  metrics = record { token = trimmed_token (env (codes "AUTH_METRICS_TOKEN")) };
  totp_replay_protection = replay_flag (env (codes "AUTH_TOTP_REPLAY_PROTECTION"));
})
assembled env problems _ secrets = err problems

-- The problems come in the order in which the source pushes them.
unfoldable pub from_env : Env → Result (List Problem) AuthConfig
unfolding read_secret totp_from_env as_bytes
from_env env =
    let proxy = nonempty (env (codes "AUTH_PROXY_SECRET")) in
    let (first_problems, first) = read_secret env (codes "AUTH_TOTP_SECRET") in
    let (next_problems, next) = read_secret env (codes "AUTH_TOTP_SECRET_NEXT") in
    let secrets = first ++ next in
    assembled env
      (proxy_problem proxy ++ (first_problems ++ (next_problems ++ totp_problem secrets))) proxy
      secrets

-- `AuthLevel::as_str`: the name in the logs and in the counter of denials.
unfoldable pub as_str : AuthLevel → Text
as_str open_level = codes "open"
as_str proxy_secret = codes "proxy_secret"
as_str totp = codes "totp"
as_str metrics_token = codes "metrics_token"

-- A moment is a natural number, so that the clamp of a time before 1970 has nothing to do.
unfoldable pub authorize : Hmac → AuthConfig → AuthLevel → Headers → ℕ → Bool
unfolding proxy_validate metrics_validate totp_validate
authorize hmac config open_level headers now = true
authorize hmac config proxy_secret headers now = proxy_validate config.proxy headers
authorize hmac config totp headers now = totp_validate hmac config.totp headers now
authorize hmac config metrics_token headers now = metrics_validate config.metrics headers

unfoldable pub metrics_enabled : AuthConfig → Bool
metrics_enabled config = elim config.metrics.token [ none ↦ false | some t ↦ true ]

unfoldable pub totp_replay_claim : Hmac → AuthConfig → Headers → Option (Text × ℕ)
unfolding code_fingerprint replay_window_seconds
totp_replay_claim hmac config headers = elim (code_fingerprint hmac config.totp headers) [
  | none ↦ none
  | some fingerprint ↦ some (fingerprint, replay_window_seconds config.totp)
]
