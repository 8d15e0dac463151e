-- ===== src/Tests/RouteTests.antt =====
-- Runs of main.rs: requests to the whole application, and the start of the process.
use jwt_service_app.Counters.{rate_limited}
use jwt_service_app.Base.{
  ℕ, ◌+◌, ◌≡◌, ◌≢◌, ◌≤◌, ◌^◌, refl, Bool, true, false, Option, none, some, List, [], ◌∷◌, ◌++◌, ltb,
  Result, ok, err, if◌then◌else◌,
}
use jwt_service_app.Base.Text.{Text, codes, text_eq}
use jwt_service_app.Env.{Env}
use jwt_service_app.Auth.Validators.{Headers}
use jwt_service_app.Auth.Config.{AuthLevel, AuthConfig, totp, proxy_secret, authorize}
use jwt_service_app.RateLimit.Address.{v4, IpParser}
use jwt_service_app.RateLimit.Limiter.{Quota, Governor, Limits, Strategy, global, per_ip, disabled}
use jwt_service_app.Handlers.{Header}
use jwt_service_app.Redis.Keyspace.{Keyspace}
use jwt_service_app.Redis.{RedisClient}
use jwt_service_app.Redis.Server.{ideal}
use jwt_service_app.Routes.{Endpoint, configure_api, Resource, internal, verify_resource}
use jwt_service_app.Routes.Endpoints.{Incoming, Extract, Body, KeyProbe, Response}
use jwt_service_app.Routes.Serve.{Framework, Reply, App, serve}
use jwt_service_app.Routes.Levels.{serve-authorized}
use jwt_service_app.Routes.Order.{serve-spares_limits}
use jwt_service_app.Routes.Flood.{serve-limited_first}
use jwt_service_app.Routes.Revoked.{serve-revoked}
use jwt_service_app.Redis.Settings.{settings_of}
use jwt_service_app.Routes.Startup.{Started, startup, assemble}
use jwt_service_app.Routes.Starts.{IsReady, startup-IsReady}
use jwt_service_app.Tests.Samples.{no_variables, one_audience, empty, store}
use jwt_service_app.Tests.TokenTests.{toy, keys, world, with_jti, sample_token, sample_claims}
use jwt_service_app.Tests.AuthTests.{zeros, validator, variables, from_env_config}
use jwt_service_app.Tests.ServerTests.{exact_pairs, files}

-- A limiter that lets through as many requests as the burst, and never refills.
abbrev counting : Governor
counting = record {
  Bucket = ℕ;
  check = λ q now b. if ltb b q.burst then (none, b + 1) else (some 7, b);
  Buckets = ℕ;
  check_key = λ q ip now b. if ltb b q.burst then (none, b + 1) else (some 7, b);
}

-- Literal patterns, no CORS answer.
abbrev pub site : Framework
site = record {
  fits = λ pattern path. text_eq pattern path;
  cors = λ policy req. none;
  hmac = zeros;
  governor = counting;
  parse_ip = λ t. none;
  instant = λ n. n;
}

abbrev pub access : AuthConfig
access = record {
  proxy = record { header = codes "P"; secret = codes "p" };
  totp = validator;
  metrics = record { token = none };
  totp_replay_protection = false;
}

abbrev pub with_secrets : Headers
with_secrets name =
    if text_eq name (codes "X")
    then some (codes "000000")
    else if text_eq name (codes "P")
    then some (codes "p")
    else none

abbrev pub without_secrets : Headers
without_secrets name = none

abbrev pub request : Text → Text → Headers → Incoming
request method path headers = record {
  method = method;
  path = path;
  headers = headers;
  host = Header.text (codes "h");
  source = record { peer = some (v4 (192 ∷ 0 ∷ 2 ∷ 1 ∷ [])); values = λ name. [] };
  body = [];
}

abbrev pub extract : Extract (Unit {0})
extract = record {
  token_request = λ req. none;
  verify_request = λ req. some (record { token = sample_token; audience = codes "a" });
  refresh_request = λ req. none;
  segment = λ req. some (codes "v");
  specification = [];
  exposition = λ events. [];
}

abbrev pub live : KeyProbe toy no_variables store keys
live now s = (true, true, s)

abbrev Application : Type 0
Application = App site toy no_variables store keys access extract live

abbrev pub started_with : Keyspace → ℕ → Application
started_with ks used = record {
  process = record { world = world ks; counted = [] };
  limits = record { bucket = used; buckets = used };
}

abbrev two_at_once : Quota
two_at_once = record { period = 1; burst = 2 }

abbrev pub limit_all : Strategy
limit_all = global two_at_once

abbrev pub limit_address : Strategy
limit_address = per_ip two_at_once [] (codes "X-Forwarded-For")

abbrev answer : Incoming → Application → Reply (Unit {0}) × Application
answer =
    serve site toy no_variables store keys access extract live
      (configure_api access limit_address limit_all [])

abbrev pub revocation : Incoming
revocation = request (codes "DELETE") (codes "/tokens/{jti}") with_secrets

abbrev verification : Incoming
verification = request (codes "POST") (codes "/tokens/verify") with_secrets

serve-authorized_example : authorize zeros access totp with_secrets 10 ≡ true
unfolding serve configure_api text_eq jwt_service_app.Auth.Hotp.hotp
    jwt_service_app.Redis.delete_jti jwt_service_app.Redis.Keyspace.del
serve-authorized_example =
    serve-authorized site toy no_variables store keys access extract live limit_address limit_all []
      revocation (started_with with_jti 0) (answer revocation (started_with with_jti 0)).1
      Endpoint.revoke_token (Response.responded (ok Body.revoked)) refl

serve-spares_limits_example :
    (answer
      (request (codes "POST") (codes "/tokens") without_secrets)
      (started_with empty 1)).1.limits
    ≡ (started_with empty 1).limits
unfolding jwt_service_app.Routes.Serve.chosen configure_api text_eq authorize
serve-spares_limits_example =
    serve-spares_limits site toy no_variables store keys access extract live limit_address limit_all
      [] (request (codes "POST") (codes "/tokens") without_secrets) (started_with empty 1)
      (internal limit_all (codes "/tokens") (codes "POST") Endpoint.create_token) refl refl refl

serve-limited_first_example :
    (answer verification (started_with with_jti 2)).1.process
    ≡ record (started_with with_jti 2).process {
      counted = (started_with with_jti 2).process.counted ++ rate_limited ∷ [];
    }
unfolding jwt_service_app.Routes.Serve.chosen configure_api text_eq serve
serve-limited_first_example =
    serve-limited_first site toy no_variables store keys access extract live limit_address limit_all
      [] verification (started_with with_jti 2) (answer verification (started_with with_jti 2)).1 7
      (verify_resource limit_address []) refl refl refl

-- The token with the `jti` "u" is verified after the one with the `jti` "v" is revoked.
serve-revoked_example : codes "u" ≢ codes "v"
unfolding serve configure_api text_eq jwt_service_app.Auth.Hotp.hotp
    jwt_service_app.Redis.delete_jti jwt_service_app.Redis.Keyspace.del
    jwt_service_app.Issuer.is_allowed jwt_service_app.Token.Headers.headers_from_base64
    jwt_service_app.Token.Claims.claims_from_base64 jwt_service_app.Token.Claims.claims_valid
    jwt_service_app.Redis.check_jti jwt_service_app.Redis.Keyspace.exists
serve-revoked_example =
    serve-revoked site toy no_variables ideal one_audience keys access extract live limit_address
      limit_all [] revocation verification (started_with with_jti 0)
      (answer revocation (started_with with_jti 0)).1
      (answer revocation (started_with with_jti 0)).1
      (answer verification (answer revocation (started_with with_jti 0)).1).1 (codes "v")
      sample_claims refl refl refl refl

abbrev any_url : Text → Bool
any_url url = true

abbrev no_address : IpParser
no_address t = none

abbrev configured : AuthConfig
configured = from_env_config (jwt_service_app.Auth.Config.from_env variables)

-- The settings of `variables` and the defaults.
abbrev process : Started
process =
    assemble any_url no_address exact_pairs variables files (some 64) 8080 (settings_of variables)
      configured (per_ip (record { period = 100000000; burst = 20 }) [] (codes "X-Forwarded-For"))
      disabled

startup-IsReady_example : IsReady any_url no_address exact_pairs variables files (some 64) process
unfolding startup jwt_service_app.Base.Text.parse_uint text_eq jwt_service_app.Auth.Config.from_env
    jwt_service_app.Base.Text.trim jwt_service_app.RateLimit.Limiter.per_ip_strategy
    jwt_service_app.RateLimit.Limiter.from_env jwt_service_app.Env.env_bool
    jwt_service_app.Env.env_u64_trimmed jwt_service_app.RateLimit.Limiter.global_strategy
    jwt_service_app.Env.env_u32
startup-IsReady_example =
    startup-IsReady any_url no_address exact_pairs variables files (some 64) process refl
