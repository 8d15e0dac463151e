-- ===== src/Jwks/Requests.antt =====
-- jwk.rs: how often the key service is asked.
use jwt_service_app.Base.{
  ℕ, ◌+◌, ◌≤◌, Bool, true, false, Bool-cases, Option, none, some, List, Result, ok, err, arith, inl,
  inr, if◌then◌else◌,
}
use jwt_service_app.Base.Text.{Text}
use jwt_service_app.Jwks.Service.{
  Jwk, JwkError, not_found, Remote, Settings, Service, Call, pure, public_keys,
}
use jwt_service_app.Jwks.Cache.{
  lookup_fresh, serve_stale, refresh_recently_failed, cache_is_fresh, allow_refresh_on_miss,
  fetch_and_store, refresh, throttled, locked, public_key, recent, find_fresh, find_stale,
  or_fetched, unless_found, or_miss, or_locked, store_reply, entry_recent,
}

-- A call that sends so many requests at most; the reads of the clock are counted on.
abbrev pub Asks : {A : Type 0} → ℕ → Call A → Type 0
Asks n m = (s : Service) → ((m s).1.requests ≤ s.requests + n) × (s.reads ≤ (m s).1.reads)

module _ (r : Remote) (c : Settings) where
  pub recent-Asks : (limit : ℕ) (at : Option ℕ) → Asks 0 (recent r c limit at)
  recent-Asks limit none s = omega arith
  recent-Asks limit (some at) s = omega arith

  find_fresh-Asks : (kid : Text) (e : Option (List Jwk × ℕ)) → Asks 0 (find_fresh r c kid e)
  find_fresh-Asks kid none s = omega arith
  find_fresh-Asks kid (some (jwks, at)) s = omega arith

  find_stale-Asks : (kid : Text) (e : Option (List Jwk × ℕ)) → Asks 0 (find_stale r c kid e)
  find_stale-Asks kid none s = omega arith
  find_stale-Asks kid (some (jwks, at)) s = omega arith

  pub lookup_fresh-Asks : (kid : Text) → Asks 0 (lookup_fresh r c kid)
  unfolding lookup_fresh
  lookup_fresh-Asks kid s = find_fresh-Asks kid s.cache.entry s

  pub serve_stale-Asks : (kid : Text) → Asks 0 (serve_stale r c kid)
  unfolding serve_stale
  serve_stale-Asks kid s = find_stale-Asks kid s.cache.entry s

  pub entry_recent-Asks : (e : Option (List Jwk × ℕ)) → Asks 0 (entry_recent r c e)
  entry_recent-Asks none s = omega arith
  entry_recent-Asks (some (jwks, at)) s = omega arith

  store_reply-Asks : (reply : Result JwkError (List Jwk)) → Asks 0 (store_reply r c reply)
  store_reply-Asks (ok jwks) s = omega arith
  store_reply-Asks (err e) s = omega arith

  or_fetched-Asks : (kid : Text) (o : Result JwkError (List Jwk)) → Asks 0 (or_fetched r c kid o)
  or_fetched-Asks kid (ok jwks) s = omega arith
  or_fetched-Asks kid (err e) s = omega (arith, serve_stale-Asks kid s)

  fetch_and_store-Asks : Asks 1 (fetch_and_store r c)
  unfolding fetch_and_store public_keys
  fetch_and_store-Asks s = omega (arith, store_reply-Asks _ _)

  pub refresh-Asks : (kid : Text) → Asks 1 (refresh r c kid)
  unfolding refresh
  refresh-Asks kid s = omega (
    arith,
    fetch_and_store-Asks s,
    or_fetched-Asks kid (fetch_and_store r c s).0 (fetch_and_store r c s).1,
  )

  pub refresh_unless-Asks :
      (kid : Text) (fresh : Bool) → Asks 1 (if fresh then pure (err not_found) else refresh r c kid)
  refresh_unless-Asks kid true s = omega arith
  refresh_unless-Asks kid false s = refresh-Asks kid s

  pub unless_found-Asks : (kid : Text) (o : Option Jwk) → Asks 1 (unless_found r c kid o)
  unfolding cache_is_fresh
  unless_found-Asks kid (some k) s = omega arith
  unless_found-Asks kid none s = omega (
    arith,
    entry_recent-Asks s.cache.entry s,
    refresh_unless-Asks kid (cache_is_fresh r c s).0 (cache_is_fresh r c s).1,
  )

  pub stale_if-Asks :
      (kid : Text) (failed : Bool) → Asks 0 (if failed then serve_stale r c kid else pure none)
  stale_if-Asks kid true s = serve_stale-Asks kid s
  stale_if-Asks kid false s = omega arith

  pub throttled-Asks : (kid : Text) → Asks 1 (throttled r c kid)
  unfolding throttled refresh_recently_failed
  throttled-Asks kid s =
      let (failed, s') = refresh_recently_failed r c s in
      let (found, s'') = (if failed then serve_stale r c kid else pure none) s' in
      omega (
        arith,
        recent-Asks c.miss_refresh_interval s.cache.last_failure s,
        stale_if-Asks kid failed s',
        unless_found-Asks kid found s'',
      )

  pub allow_refresh_on_miss-Asks : Asks 0 (allow_refresh_on_miss r c)
  unfolding allow_refresh_on_miss
  allow_refresh_on_miss-Asks s =
      elim (Bool-cases (recent r c c.miss_refresh_interval s.cache.last_attempt s).0) [
        | inl throttled' ↦
            rw (throttled', allow_refresh_on_miss)
              (omega (arith, recent-Asks c.miss_refresh_interval s.cache.last_attempt s))
        | inr allowed ↦
            rw (allowed, allow_refresh_on_miss)
              (omega (arith, recent-Asks c.miss_refresh_interval s.cache.last_attempt s))
      ]

  pub refresh_if-Asks :
      (kid : Text) (b : Bool) → Asks 1 (if b then refresh r c kid else throttled r c kid)
  refresh_if-Asks kid true s = refresh-Asks kid s
  refresh_if-Asks kid false s = throttled-Asks kid s

  pub or_miss-Asks : (kid : Text) (o : Option Jwk) → Asks 1 (or_miss r c kid o)
  or_miss-Asks kid (some k) s = omega arith
  or_miss-Asks kid none s = omega (
    arith,
    allow_refresh_on_miss-Asks s,
    refresh_if-Asks kid (allow_refresh_on_miss r c s).0 (allow_refresh_on_miss r c s).1,
  )

  pub locked-Asks : (kid : Text) → Asks 1 (locked r c kid)
  unfolding locked
  locked-Asks kid s = omega (
    arith,
    lookup_fresh-Asks kid s,
    or_miss-Asks kid (lookup_fresh r c kid s).0 (lookup_fresh r c kid s).1,
  )

  or_locked-Asks : (kid : Text) (o : Option Jwk) → Asks 1 (or_locked r c kid o)
  or_locked-Asks kid (some k) s = omega arith
  or_locked-Asks kid none s = locked-Asks kid s

  -- One call of `public_key` sends one request to the key service at most, whatever the cache holds
  -- and whatever the service replies.
  public_key-requests :
      (kid : Text) (s : Service) → (public_key r c kid s).1.requests ≤ s.requests + 1
  unfolding public_key
  public_key-requests kid s = omega (
    arith,
    lookup_fresh-Asks kid s,
    or_locked-Asks kid (lookup_fresh r c kid s).0 (lookup_fresh r c kid s).1,
  )
