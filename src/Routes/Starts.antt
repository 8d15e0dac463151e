-- ===== src/Routes/Starts.antt =====
-- main.rs `main`: what holds of a process that starts, and when it does.
use jwt_service_app.Base.{
  ℕ, ◌^◌, ◌≤◌, ◌<◌, ◌≡◌, refl, subst, Bool, true, false, Bool-cases, inl, inr, Option, some, List,
  [], ◌∷◌, is_empty, All, ok, ok_or, map_err, and_then-ok, ok_or-ok, map_err-ok, ok-injective,
  arith,
}
use jwt_service_app.Base.Text.{Text, codes, split, trim, parse_uint-lt}
use jwt_service_app.Env.{Env, unwrap_or}
use jwt_service_app.Auth.Config.{AuthConfig, Problem}
use jwt_service_app.Auth.Setup.{IsWellConfigured, from_env-IsWellConfigured}
use jwt_service_app.RateLimit.Address.{IpParser}
use jwt_service_app.RateLimit.Limiter.{RateLimitConfig, Strategy, per_ip_strategy, global_strategy}
use jwt_service_app.Server.{Cores, Files, ServerConfig}
use jwt_service_app.Server.Workers.{IsChosen, from_env-IsChosen}
use jwt_service_app.Redis.Settings.{ClientSettings, new, new-valid}
use jwt_service_app.Routes.{configure_api}
use jwt_service_app.Routes.Startup.{
  Started, parse_port, trimmed_origins, cors_origins_of, startup, assemble, with_port, with_redis,
  with_access, with_verify_limiter, redis_client, bad_port, bad_verify_quota, bad_internal_quota,
  bad_access, bad_redis_url,
}

abbrev IsPresent : Text → Type 0
IsPresent t = is_empty t ≡ false

trimmed_origins-IsPresent : (parts : List Text) → All IsPresent (trimmed_origins parts)
unfolding trimmed_origins
trimmed_origins-IsPresent [] = tt
trimmed_origins-IsPresent (s ∷ parts) = elim (Bool-cases (is_empty (trim s))) [
  | inl blank ↦ rw (blank, trimmed_origins) (trimmed_origins-IsPresent parts)
  | inr present ↦ rw (present, trimmed_origins) (present, trimmed_origins-IsPresent parts)
]

module _ (valid_redis_url : Text → Bool) (parse_ip : IpParser) (f : Cores) where
  -- What the process relies on once it runs.
  pub record IsReady (env : Env) (files : Files) (parallelism : Option ℕ) (s : Started)
      : Type 0 where
    pub port : s.port < 2 ^ 16
    pub redis : valid_redis_url s.redis.url ≡ true
    pub auth : IsWellConfigured s.auth
    pub workers : 1 ≤ s.server.workers
    pub origins : All IsPresent s.cors_origins
    pub api :
        (verify_limiter : Strategy) × (internal_limiter : Strategy) × (per_ip_strategy s.rate_limit
          ≡ some verify_limiter)
        × (global_strategy s.rate_limit ≡ some internal_limiter)
        × (s.api ≡ configure_api s.auth verify_limiter internal_limiter s.cors_origins)

  workers_of :
      (env : Env) (files : Files) (n w : ℕ) (source : jwt_service_app.Server.WorkersSource)
      → IsChosen f env files n w source
      → 1 ≤ w
  workers_of env files n w source (jwt_service_app.Server.Workers.IsChosen.set_by_hand _ h _) = h
  workers_of env files n w source (jwt_service_app.Server.Workers.IsChosen.by_quota _ _ _ _ h _ _) =
      h
  workers_of env files n w source (jwt_service_app.Server.Workers.IsChosen.by_ceiling _ _ h _ _ _) =
      h

  assemble-IsReady :
      (env : Env) (files : Files) (parallelism : Option ℕ) (port : ℕ) (redis : ClientSettings)
      (auth : AuthConfig) (verify_limiter internal_limiter : Strategy)
      → parse_port env ≡ some port
      → new valid_redis_url env ≡ some redis
      → jwt_service_app.Auth.Config.from_env env ≡ ok auth
      → per_ip_strategy (jwt_service_app.RateLimit.Limiter.from_env parse_ip env)
        ≡ some verify_limiter
      → global_strategy (jwt_service_app.RateLimit.Limiter.from_env parse_ip env)
        ≡ some internal_limiter
      → IsReady env files parallelism (
          assemble valid_redis_url parse_ip f env files parallelism port redis auth verify_limiter
            internal_limiter)
  unfolding parse_port cors_origins_of
  assemble-IsReady env files parallelism port redis auth verify_limiter internal_limiter is_port
        is_url is_auth is_verify is_internal =
      record {
        port = parse_uint-lt (2 ^ 16) _ is_port (omega arith);
        redis = new-valid valid_redis_url env redis is_url;
        auth = from_env-IsWellConfigured env auth is_auth;
        workers = workers_of env files _ _ _ (from_env-IsChosen f env files parallelism);
        origins =
            trimmed_origins-IsPresent
              (split b',' (unwrap_or [] (env (codes "CORS_ALLOWED_ORIGINS"))));
        api = (verify_limiter, internal_limiter, is_verify, is_internal, refl);
      }

  -- A process that gets as far as binding its address has a port that fits 16 bits, a valid Redis URL,
  -- an access configuration with every secret that its levels need, at least one worker, no empty
  -- CORS origin, and the routes of exactly that configuration, with the limiters that its settings
  -- give.
  pub startup-IsReady :
      (env : Env) (files : Files) (parallelism : Option ℕ) (s : Started)
      → startup valid_redis_url parse_ip f env files parallelism ≡ ok s
      → IsReady env files parallelism s
  unfolding startup
  startup-IsReady env files parallelism s h =
      let (port, is_port, h1) =
        and_then-ok (ok_or bad_port (parse_port env))
          (with_port valid_redis_url parse_ip f env files parallelism) h in
      let (redis, is_url, h2) =
        and_then-ok (redis_client valid_redis_url parse_ip f env)
          (with_redis valid_redis_url parse_ip f env files parallelism port) h1 in
      let (auth, is_auth, h3) =
        and_then-ok (map_err bad_access (jwt_service_app.Auth.Config.from_env env))
          (with_access valid_redis_url parse_ip f env files parallelism port redis) h2 in
      let config : RateLimitConfig = jwt_service_app.RateLimit.Limiter.from_env parse_ip env in
      let (verify_limiter, is_verify, h4) =
        and_then-ok (ok_or bad_verify_quota (per_ip_strategy config))
          (with_verify_limiter valid_redis_url parse_ip f env files parallelism port redis auth)
          h3 in
      let (internal_limiter, is_internal, h5) =
        and_then-ok (ok_or bad_internal_quota (global_strategy config))
          (λ i. ok (
            assemble valid_redis_url parse_ip f env files parallelism port redis auth verify_limiter
              i))
          h4 in
      subst (IsReady env files parallelism) (ok-injective h5) (
        assemble-IsReady env files parallelism port redis auth verify_limiter internal_limiter
          (ok_or-ok bad_port _ is_port) (ok_or-ok bad_redis_url _ is_url)
          (map_err-ok bad_access _ is_auth) (ok_or-ok bad_verify_quota _ is_verify)
          (ok_or-ok bad_internal_quota _ is_internal))
