-- ===== src/Routes/Startup.antt =====
-- main.rs: `main` up to the start of the server. The order is the source's; a panic is the failure that
-- is named. Whether a Redis URL is valid, and the numbers of type `f64`, are parameters. Logging, the
-- recorder of the metrics, the sweep thread and the socket are left out: the process that `startup` gives
-- is about to bind its address, which may still fail.
use jwt_service_app.Base.{
  ℕ, ◌^◌, Bool, Option, List, [], ◌∷◌, is_empty, Result, ok, and_then, ok_or, map_err,
  if◌then◌else◌,
}
use jwt_service_app.Base.Text.{Text, codes, split, trim, parse_uint}
use jwt_service_app.Env.{Env, unwrap_or}
use jwt_service_app.Auth.Config.{AuthConfig, Problem}
use jwt_service_app.Redis.Settings.{ClientSettings, new}
use jwt_service_app.RateLimit.Address.{IpParser}
use jwt_service_app.RateLimit.Limiter.{RateLimitConfig, Strategy, per_ip_strategy, global_strategy}
use jwt_service_app.Server.{Cores, Files, ServerConfig}
use jwt_service_app.Routes.{Api, configure_api}

-- Why the process panics at startup.
pub data Panic : Type 0 where
  bad_port bad_redis_url bad_verify_quota bad_internal_quota : Panic
  bad_access : List Problem → Panic

pub record Started : Type 0 where
  pub algorithm : Text
  pub host : Text
  pub port : ℕ
  pub redis : ClientSettings
  pub auth : AuthConfig
  pub rate_limit : RateLimitConfig
  pub cors_origins : List Text
  pub server : ServerConfig
  pub api : Api

-- Not trimmed.
unfoldable pub parse_port : Env → Option ℕ
parse_port env = parse_uint (2 ^ 16) (unwrap_or (codes "8080") (env (codes "PORT")))

unfoldable pub trimmed_origins : List Text → List Text
trimmed_origins [] = []
trimmed_origins (s ∷ parts) =
    let rest = trimmed_origins parts in if is_empty (trim s) then rest else trim s ∷ rest

unfoldable pub cors_origins_of : Env → List Text
unfolding trimmed_origins split
cors_origins_of env =
    trimmed_origins (split b',' (unwrap_or [] (env (codes "CORS_ALLOWED_ORIGINS"))))

module _ (valid_redis_url : Text → Bool) (parse_ip : IpParser) (f : Cores) where
  -- `RedisClient::new`: the URL is parsed, and no connection is opened.
  abbrev pub redis_client : Env → Result Panic ClientSettings
  redis_client env = ok_or bad_redis_url (new valid_redis_url env)

  abbrev pub assemble :
      Env → Files → Option ℕ → ℕ → ClientSettings → AuthConfig → Strategy → Strategy → Started
  assemble env files parallelism port redis auth verify_limiter internal_limiter =
      let origins = cors_origins_of env in
      record {
        algorithm = unwrap_or (codes "RS256") (env (codes "TOKEN_ALGORITHM"));
        host = unwrap_or (codes "127.0.0.1") (env (codes "HOST"));
        port = port;
        redis = redis;
        auth = auth;
        rate_limit = jwt_service_app.RateLimit.Limiter.from_env parse_ip env;
        cors_origins = origins;
        server = jwt_service_app.Server.from_env f env files parallelism;
        api = configure_api auth verify_limiter internal_limiter origins;
      }

  abbrev pub with_verify_limiter :
      Env → Files → Option ℕ → ℕ → ClientSettings → AuthConfig → Strategy → Result Panic Started
  with_verify_limiter env files parallelism port redis auth verify_limiter =
      let config = jwt_service_app.RateLimit.Limiter.from_env parse_ip env in
      and_then (ok_or bad_internal_quota (global_strategy config)) (λ internal_limiter.
        ok (assemble env files parallelism port redis auth verify_limiter internal_limiter))

  abbrev pub with_access :
      Env → Files → Option ℕ → ℕ → ClientSettings → AuthConfig → Result Panic Started
  with_access env files parallelism port redis auth =
      let config = jwt_service_app.RateLimit.Limiter.from_env parse_ip env in
      and_then (ok_or bad_verify_quota (per_ip_strategy config))
        (with_verify_limiter env files parallelism port redis auth)

  abbrev pub with_redis : Env → Files → Option ℕ → ℕ → ClientSettings → Result Panic Started
  with_redis env files parallelism port redis =
      and_then (map_err bad_access (jwt_service_app.Auth.Config.from_env env))
        (with_access env files parallelism port redis)

  abbrev pub with_port : Env → Files → Option ℕ → ℕ → Result Panic Started
  with_port env files parallelism port =
      and_then (redis_client env) (with_redis env files parallelism port)

  unfoldable pub startup : Env → Files → Option ℕ → Result Panic Started
  unfolding parse_port new
  startup env files parallelism =
      and_then (ok_or bad_port (parse_port env)) (with_port env files parallelism)
