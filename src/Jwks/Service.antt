-- ===== src/Jwks/Service.antt =====
-- jwk.rs: the data of the keys (models/mod.rs), the key service as a parameter, the state of the
-- client and its requests. A request is answered by its number. Times and durations are in
-- nanoseconds; the clock is read anew at each `elapsed()` and `now()`.
use jwt_service_app.Base.{ℕ, ◌+◌, ◌-◌, ◌*◌, Option, none, some, List, Result, ok, err}
use jwt_service_app.Base.Text.{Text, codes}
use jwt_service_app.Env.{Env, env_u64_trimmed}

pub record Jwk : Type 0 where
  pub kty : Text
  pub alg : Text
  pub kid : Text
  pub crv : Option Text
  pub x : Option Text
  pub y : Option Text
  pub n : Option Text
  pub e : Option Text

pub record JwkData : Type 0 where
  pub id : Text
  pub kty : Text
  pub alg : Text
  pub kid : Text
  pub crv : Option Text
  pub x : Option Text
  pub y : Option Text
  pub n : Option Text
  pub e : Option Text
  pub private_key : Text

pub data JwkError : Type 0 where
  bad_connection bad_response not_found : JwkError

-- A reply of the key service: none, or a status and a body that parses or does not.
pub data Reply (A : Type 0) : Type 0 where
  unreachable : Reply A
  response : ℕ → Option A → Reply A

-- The key service, and the clock of the process.
pub record Remote : Type 0 where
  pub list_keys : ℕ → Reply (List Jwk)
  pub read_key : Text → ℕ → Reply JwkData
  pub new_key : Text → ℕ → Reply JwkData
  pub clock : ℕ → ℕ

pub record Settings : Type 0 where
  pub cache_ttl : ℕ
  pub miss_refresh_interval : ℕ
  pub stale_grace : ℕ

-- `Duration::from_secs`
abbrev pub from_secs : ℕ → ℕ
from_secs s = s * 1000000000

-- `JwkService::new`, its settings.
unfoldable pub settings : Env → Settings
settings env = record {
  cache_ttl = from_secs (env_u64_trimmed env (codes "JWKS_CACHE_TTL_SECONDS") 300);
  miss_refresh_interval =
      from_secs (env_u64_trimmed env (codes "JWKS_CACHE_MISS_REFRESH_SECONDS") 10);
  stale_grace = from_secs (env_u64_trimmed env (codes "JWKS_CACHE_STALE_GRACE_SECONDS") 10);
}

pub record CacheState : Type 0 where
  pub entry : Option (List Jwk × ℕ)
  pub last_attempt : Option ℕ
  pub last_failure : Option ℕ

-- The cache, and how often the clock was read and the key service asked.
pub record Service : Type 0 where
  pub cache : CacheState
  pub reads : ℕ
  pub requests : ℕ

abbrev pub fresh_service : Service
fresh_service = record {
  cache = record { entry = none; last_attempt = none; last_failure = none };
  reads = 0;
  requests = 0;
}

abbrev pub Call : Type 0 → Type 0
Call A = Service → A × Service

infixl 5 ◌>>=◌ ◌>>◌
abbrev pub ◌>>=◌ : {A B : Type 0} → Call A → (A → Call B) → Call B
◌>>=◌ m f s = let (a, s') = m s in f a s'

abbrev pub ◌>>◌ : {B : Type 0} → Call (Unit {0}) → Call B → Call B
m >> k = m >>= λ _. k

abbrev pub pure : {A : Type 0} → A → Call A
pure a s = (a, s)

abbrev pub get_cache : Call CacheState
get_cache s = (s.cache, s)

abbrev pub set_cache : CacheState → Call (Unit {0})
set_cache c s = (tt, record s { cache = c })

module _ (r : Remote) where
  -- `Instant::now()`
  abbrev pub now : Call ℕ
  now s = (r.clock s.reads, record s { reads = s.reads + 1 })

  -- `at.elapsed()`
  abbrev pub elapsed : ℕ → Call ℕ
  elapsed at s = (r.clock s.reads - at, record s { reads = s.reads + 1 })

  abbrev pub request : {A : Type 0} → (ℕ → Reply A) → Call (Reply A)
  request ask s = (ask s.requests, record s { requests = s.requests + 1 })

  -- The body counts whatever the status.
  abbrev pub body_of : {A : Type 0} → Reply A → Result JwkError A
  body_of unreachable = err bad_connection
  body_of (response status none) = err bad_response
  body_of (response status (some body)) = ok body

  unfoldable pub public_keys : Call (Result JwkError (List Jwk))
  public_keys = do reply ← request r.list_keys; pure (body_of reply)

  abbrev forget : {A : Type 0} → Result JwkError A → Result JwkError (Unit {0})
  forget (ok a) = ok tt
  forget (err e) = err e

  unfoldable pub health_check : Call (Result JwkError (Unit {0}))
  unfolding public_keys
  health_check = do keys ← public_keys; pure (forget keys)
