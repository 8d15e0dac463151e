-- ===== src/Tests/AuthTests.antt =====
-- Runs of auth.rs.
use jwt_service_app.Base.{
  ℕ, ◌+◌, ◌*◌, ◌^◌, ◌/◌, ◌<◌, ◌≤◌, ◌≡◌, ◌↔◌, refl, Bool, true, false, Option, none, some, List, [],
  ◌∷◌, replicate, Result, ok, err, arith, if◌then◌else◌,
}
use mathlib.Core.List.{Memᴰ}
use jwt_service_app.Base.Text.{Text, codes, text_eq}
use jwt_service_app.Env.{Env}
use jwt_service_app.Auth.Hotp.{Hmac, TotpDigest, sha1, hotp}
use jwt_service_app.Auth.Validators.{
  Headers, TotpValidator, matches, totp_validate, replay_window_seconds,
}
use jwt_service_app.Auth.Config.{AuthConfig, Problem, from_env, totp, authorize, totp_replay_claim}
use jwt_service_app.Auth.Middleware.{admit}
use jwt_service_app.Auth.Totp.{InWindow, totp_validate_iff, replay_window_seconds-covers}
use jwt_service_app.Auth.Setup.{IsWellConfigured, from_env-IsWellConfigured}
use jwt_service_app.Auth.Replay.{admit-once}
use jwt_service_app.Redis.{RedisClient, claim_totp_code}
use jwt_service_app.Redis.Server.{ideal}
use jwt_service_app.Tests.Samples.{one_audience, empty, connected, store}

-- A message authentication code of zeros.
abbrev pub zeros : Hmac
zeros digest secret message = some (replicate 20 0)

abbrev pub validator : TotpValidator
validator = record {
  header = codes "X";
  secrets = (1 ∷ 2 ∷ []) ∷ [];
  step = 30;
  digits = 6;
  skew = 1;
  digest = sha1;
}

abbrev headers : Headers
headers name = if text_eq name (codes "X") then some (codes "000000") else none

-- The same code in another request.
abbrev other_headers : Headers
other_headers name = if text_eq name (codes "Y") then some (codes "y") else headers name

abbrev no_headers : Headers
no_headers name = none

abbrev config : AuthConfig
config = record {
  proxy = record { header = codes "P"; secret = codes "p" };
  totp = validator;
  metrics = record { token = none };
  totp_replay_protection = true;
}

totp_validate_iff_example : (totp_validate zeros validator headers 100 ≡ true) ↔ (
    (provided : List ℕ) × (secret : List ℕ) × (c : ℕ) × (headers (codes "X") ≡ some provided)
    × Memᴰ secret validator.secrets
    × InWindow validator 100 c
    × (matches zeros validator provided secret c ≡ true))
totp_validate_iff_example = totp_validate_iff zeros validator headers 100 (omega arith)

replay_window_seconds-covers_example : 149 < 60 + replay_window_seconds validator
replay_window_seconds-covers_example =
    replay_window_seconds-covers validator 3 60 149 (omega arith) (omega arith)
      (omega arith, omega arith) (omega arith, omega arith)

abbrev pub variables : Env
variables name =
    if text_eq name (codes "AUTH_PROXY_SECRET")
    then some (codes "p")
    else if text_eq name (codes "AUTH_TOTP_SECRET")
    then some (codes "MFRGG")
    else none

abbrev pub from_env_config : Result (List Problem) AuthConfig → AuthConfig
from_env_config (ok c) = c
from_env_config (err problems) = config

from_env-IsWellConfigured_example : IsWellConfigured (from_env_config (from_env variables))
unfolding from_env text_eq jwt_service_app.Base.Text.trim
from_env-IsWellConfigured_example =
    from_env-IsWellConfigured variables (from_env_config (from_env variables)) refl

admit-once_example :
    (admit zeros config store totp other_headers 101
      (admit zeros config store totp headers 100 (connected empty)).1).0
    ≡ false
unfolding admit totp_replay_claim text_eq authorize jwt_service_app.Auth.Hotp.hotp claim_totp_code
    jwt_service_app.Redis.Keyspace.set_nx_ex jwt_service_app.Store.totp_code_key
admit-once_example =
    admit-once zeros config ideal one_audience headers other_headers 100 101 90 (connected empty)
      (admit zeros config store totp headers 100 (connected empty)).1
      (codes "0000000000000000000000000000000000000000") false refl refl refl refl refl refl refl
      (omega arith)
