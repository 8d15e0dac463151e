-- ===== src/Jwks/Cache.antt =====
-- jwk.rs: the cache of public keys, and `public_key`. The locked part runs undisturbed; the state at
-- its start is whatever other requests left.
use jwt_service_app.Base.{
  ℕ, ◌+◌, ◌-◌, ◌*◌, ◌^◌, Bool, true, false, Option, none, some, List, find, is_empty, ltb, leb,
  ◌==◌, Result, ok, err, ok_or, if◌then◌else◌,
}
use jwt_service_app.Base.Text.{Text, text_eq}
use jwt_service_app.Jwks.Service.{
  Jwk, JwkError, not_found, Remote, Settings, Call, ◌>>=◌, ◌>>◌, pure, get_cache, set_cache, now,
  elapsed, public_keys,
}

abbrev pub find_kid : Text → List Jwk → Option Jwk
find_kid kid = find (λ k. text_eq k.kid kid)

-- `Duration::MAX`
abbrev pub duration_max : ℕ
duration_max = 2 ^ 64 * 1000000000 - 1

-- The maximum age of a snapshot that may still be served.
unfoldable pub servable_max_age : Settings → ℕ
servable_max_age c =
    if c.cache_ttl == 0
    then 0
    else if ltb duration_max (c.cache_ttl + c.stale_grace)
    then duration_max
    else c.cache_ttl + c.stale_grace

module _ (r : Remote) (c : Settings) where
  -- `is_some_and(|at| at.elapsed() < limit)`
  abbrev pub recent : ℕ → Option ℕ → Call Bool
  recent limit none = pure false
  recent limit (some at) = do age ← elapsed r at; pure (ltb age limit)

  abbrev pub find_fresh : Text → Option (List Jwk × ℕ) → Call (Option Jwk)
  find_fresh kid none = pure none
  find_fresh kid (some (jwks, fetched_at)) = do
    age ← elapsed r fetched_at
    pure (if leb c.cache_ttl age then none else find_kid kid jwks)

  unfoldable pub lookup_fresh : Text → Call (Option Jwk)
  lookup_fresh kid = do state ← get_cache; find_fresh kid state.entry

  abbrev pub find_stale : Text → Option (List Jwk × ℕ) → Call (Option Jwk)
  find_stale kid none = pure none
  find_stale kid (some (jwks, fetched_at)) = do
    age ← elapsed r fetched_at
    pure (if leb (servable_max_age c) age then none else find_kid kid jwks)

  -- `lookup_stale` and `serve_stale`, without the log and the age that it shows.
  unfoldable pub serve_stale : Text → Call (Option Jwk)
  unfolding servable_max_age
  serve_stale kid = do state ← get_cache; find_stale kid state.entry

  unfoldable pub refresh_recently_failed : Call Bool
  refresh_recently_failed = do state ← get_cache; recent c.miss_refresh_interval state.last_failure

  abbrev pub entry_recent : Option (List Jwk × ℕ) → Call Bool
  entry_recent none = pure false
  entry_recent (some (jwks, fetched_at)) = recent c.cache_ttl (some fetched_at)

  unfoldable pub cache_is_fresh : Call Bool
  cache_is_fresh = do state ← get_cache; entry_recent state.entry

  abbrev servable : Option (List Jwk × ℕ) → Call Bool
  servable none = pure false
  servable (some (jwks, fetched_at)) =
      if is_empty jwks then pure false else recent (servable_max_age c) (some fetched_at)

  unfoldable pub has_servable_snapshot : Call Bool
  unfolding servable_max_age
  has_servable_snapshot = do state ← get_cache; servable state.entry

  unfoldable pub allow_refresh_on_miss : Call Bool
  allow_refresh_on_miss = do
    state ← get_cache
    throttled ← recent c.miss_refresh_interval state.last_attempt
    if throttled
        then pure false
        else (do at ← now r; set_cache (record state { last_attempt = some at }); pure true)

  abbrev pub store_reply : Result JwkError (List Jwk) → Call (Result JwkError (List Jwk))
  store_reply (err e) = do
    at ← now r
    state ← get_cache
    set_cache (record state { last_failure = some at })
    pure (err e)
  store_reply (ok jwks) = do
    at ← now r
    state ← get_cache
    set_cache (record state { entry = some (jwks, at); last_failure = none })
    pure (ok jwks)

  unfoldable pub fetch_and_store : Call (Result JwkError (List Jwk))
  unfolding public_keys
  fetch_and_store = do
    at ← now r
    state ← get_cache
    set_cache (record state { last_attempt = some at })
    reply ← public_keys r
    store_reply reply

  abbrev pub or_fetched : Text → Result JwkError (List Jwk) → Call (Result JwkError Jwk)
  or_fetched kid (ok jwks) = pure (ok_or not_found (find_kid kid jwks))
  or_fetched kid (err e) = do found ← serve_stale kid; pure (ok_or e found)

  -- The trip to the key service, with the stale snapshot to fall back on.
  unfoldable pub refresh : Text → Call (Result JwkError Jwk)
  unfolding fetch_and_store serve_stale
  refresh kid = do fetched ← fetch_and_store; or_fetched kid fetched

  -- Too early to refresh: serve the stale snapshot after a failure, refuse on a fresh cache.
  abbrev pub unless_found : Text → Option Jwk → Call (Result JwkError Jwk)
  unless_found kid (some jwk) = pure (ok jwk)
  unless_found kid none = do
    fresh ← cache_is_fresh
    if fresh then pure (err not_found) else refresh kid

  unfoldable pub throttled : Text → Call (Result JwkError Jwk)
  unfolding refresh refresh_recently_failed cache_is_fresh
  throttled kid = do
    failed ← refresh_recently_failed
    found ← (if failed then serve_stale kid else pure none)
    unless_found kid found

  abbrev pub or_miss : Text → Option Jwk → Call (Result JwkError Jwk)
  or_miss kid (some jwk) = pure (ok jwk)
  or_miss kid none = do
    allowed ← allow_refresh_on_miss
    if allowed then refresh kid else throttled kid

  -- The part under the refresh lock.
  unfoldable pub locked : Text → Call (Result JwkError Jwk)
  unfolding lookup_fresh allow_refresh_on_miss throttled
  locked kid = do found ← lookup_fresh kid; or_miss kid found

  abbrev pub or_locked : Text → Option Jwk → Call (Result JwkError Jwk)
  or_locked kid (some jwk) = pure (ok jwk)
  or_locked kid none = locked kid

  unfoldable pub public_key : Text → Call (Result JwkError Jwk)
  unfolding locked
  public_key kid = do found ← lookup_fresh kid; or_locked kid found
