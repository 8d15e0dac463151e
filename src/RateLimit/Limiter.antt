-- ===== src/RateLimit/Limiter.antt =====
-- rate_limit.rs: `quota`, `RateLimitConfig`, `Strategy` and the middleware. The token buckets are the
-- crate governor's, a parameter. The background sweep of stale entries is the crate's too.
use jwt_service_app.Base.{
  ℕ, ◌/◌, Bool, true, false, Option, none, some, List, [], ◌∷◌, is_empty, ltb, ◌==◌, Result, ok,
  err, if◌then◌else◌,
}
use jwt_service_app.Base.Text.{Text, codes, trim, split}
use jwt_service_app.Counters.{Metric, rate_limited}
use jwt_service_app.Env.{Env, env_u64_trimmed, env_u32, env_bool, unwrap_or}
use jwt_service_app.RateLimit.Address.{IpAddr, IpParser, Cidr, parse_cidr}
use jwt_service_app.RateLimit.Client.{resolve_key_ip}

-- The time in which one request is refilled, in nanoseconds, and the burst.
pub record Quota : Type 0 where
  pub period : ℕ
  pub burst : ℕ

abbrev pub at_least_one : ℕ → ℕ
at_least_one n = if ltb n 1 then 1 else n

-- none is the panic of `expect`: `Quota::with_period` refuses a period of zero.
unfoldable pub quota : ℕ → ℕ → Option Quota
quota per_second burst =
    let period = 1000000000 / at_least_one per_second in
    if period == 0 then none else some (record { period = period; burst = at_least_one burst })

-- The limiters of governor: a check that refuses gives the whole seconds to wait.
pub record Governor : Type 1 where
  pub Bucket : Type 0
  pub check : Quota → ℕ → Bucket → Option ℕ × Bucket
  pub Buckets : Type 0
  pub check_key : Quota → IpAddr → ℕ → Buckets → Option ℕ × Buckets

unfoldable pub retry_after_secs : ℕ → ℕ
retry_after_secs wait = at_least_one wait

pub record RateLimitConfig : Type 0 where
  pub verify_enabled : Bool
  pub verify_per_second : ℕ
  pub verify_burst : ℕ
  pub internal_enabled : Bool
  pub internal_per_second : ℕ
  pub internal_burst : ℕ
  pub trusted : List Cidr
  pub forwarded_header : Text

abbrev pub add_cidr : Option Cidr → List Cidr → List Cidr
add_cidr none trusted = trusted
add_cidr (some c) trusted = c ∷ trusted

-- An empty entry is skipped, and one that does not parse too, with a warning.
unfoldable pub trusted_of : IpParser → List Text → List Cidr
unfolding parse_cidr
trusted_of parse_ip [] = []
trusted_of parse_ip (entry ∷ entries) =
    let rest = trusted_of parse_ip entries in
    if is_empty (trim entry) then rest else add_cidr (parse_cidr parse_ip (trim entry)) rest

unfoldable pub from_env : IpParser → Env → RateLimitConfig
unfolding trusted_of split
from_env parse_ip env = record {
  verify_enabled = env_bool env (codes "RATE_LIMIT_VERIFY_ENABLED") true;
  verify_per_second = env_u64_trimmed env (codes "RATE_LIMIT_VERIFY_PER_SECOND") 10;
  verify_burst = env_u32 env (codes "RATE_LIMIT_VERIFY_BURST") 20;
  internal_enabled = env_bool env (codes "RATE_LIMIT_INTERNAL_ENABLED") false;
  internal_per_second = env_u64_trimmed env (codes "RATE_LIMIT_INTERNAL_PER_SECOND") 50;
  internal_burst = env_u32 env (codes "RATE_LIMIT_INTERNAL_BURST") 100;
  trusted =
      trusted_of parse_ip (split b',' (unwrap_or [] (env (codes "RATE_LIMIT_TRUSTED_PROXIES"))));
  forwarded_header =
      unwrap_or (codes "X-Forwarded-For") (env (codes "RATE_LIMIT_FORWARDED_HEADER"));
}

-- The strategy of a middleware; the buckets themselves are its state.
pub data Strategy : Type 0 where
  disabled : Strategy
  per_ip : Quota → List Cidr → Text → Strategy
  global : Quota → Strategy

-- `build_verify` with `RateLimit::per_ip`; none is a panic.
unfoldable pub per_ip_strategy : RateLimitConfig → Option Strategy
unfolding quota
per_ip_strategy c =
    if c.verify_enabled
    then elim (quota c.verify_per_second c.verify_burst) [
      | none ↦ none
      | some q ↦ some (per_ip q c.trusted c.forwarded_header)
    ]
    else some disabled

-- `build_internal` with `RateLimit::global`; none is a panic.
unfoldable pub global_strategy : RateLimitConfig → Option Strategy
unfolding quota
global_strategy c =
    if c.internal_enabled
    then elim (quota c.internal_per_second c.internal_burst) [
      | none ↦ none
      | some q ↦ some (global q)
    ]
    else some disabled

pub record Request : Type 0 where
  pub peer : Option IpAddr
  pub values : Text → List (Option Text)

module _ (g : Governor) (parse_ip : IpParser) where
  pub record Limits : Type 0 where
    pub bucket : g.Bucket
    pub buckets : g.Buckets

  abbrev verdict : Option ℕ → Result ℕ (Unit {0})
  verdict none = ok tt
  verdict (some wait) = err (retry_after_secs wait)

  abbrev check_address :
      Quota → ℕ → Limits → Option (Option IpAddr) → Option (Result ℕ (Unit {0}) × Limits)
  check_address q now s none = none
  check_address q now s (some none) = some (ok tt, s)
  check_address q now s (some (some ip)) =
      let (refused, buckets) = g.check_key q ip now s.buckets in
      some (verdict refused, record s { buckets = buckets })

  -- `Strategy::check`; none outside is a panic.
  unfoldable pub check : Strategy → Request → ℕ → Limits → Option (Result ℕ (Unit {0}) × Limits)
  unfolding resolve_key_ip retry_after_secs
  check disabled req now s = some (ok tt, s)
  check (global q) req now s =
      let (refused, bucket) = g.check q now s.bucket in
      some (verdict refused, record s { bucket = bucket })
  check (per_ip q trusted header) req now s =
      check_address q now s (resolve_key_ip parse_ip req.peer (req.values header) trusted)

  -- What the middleware answers: the inner service's answer, or 429 with `Retry-After`.
  pub data Reply (A : Type 0) : Type 0 where
    passed : A → Reply A
    too_many_requests : ℕ → Reply A

  -- With the events that are counted.
  abbrev respond :
      {A : Type 0} → (Request → A) → Request → Result ℕ (Unit {0}) → Reply A × List Metric
  respond service req (ok _) = (passed (service req), [])
  respond service req (err retry_after) = (too_many_requests retry_after, rate_limited ∷ [])

  unfoldable pub call :
      {A : Type 0}
      → Strategy
      → (Request → A)
      → Request
      → ℕ
      → Limits
      → Option ((Reply A × List Metric) × Limits)
  unfolding check
  call strategy service req now s = elim (check strategy req now s) [
    | none ↦ none
    | some (decision, s') ↦ some (respond service req decision, s')
  ]
