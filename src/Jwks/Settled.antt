-- ===== src/Jwks/Settled.antt =====
-- jwk.rs: a turn under the refresh lock changes nothing but the clock, or it sends one request whose answer
-- settles the cache.
use jwt_service_app.Base.{
  ℕ, ◌+◌, ◌≤◌, ◌≡◌, ◌⊎◌, refl, Bool, true, false, Option, none, some, List, ok, err, arith, inl,
  inr, if◌then◌else◌,
}
use jwt_service_app.Base.Text.{Text}
use jwt_service_app.Jwks.Service.{
  Jwk, not_found, Remote, Settings, CacheState, Service, pure, public_keys, body_of,
}
use jwt_service_app.Jwks.Requests.{
  refresh-Asks, recent-Asks, stale_if-Asks, entry_recent-Asks, lookup_fresh-Asks,
  allow_refresh_on_miss-Asks,
}
use jwt_service_app.Jwks.Cache.{
  lookup_fresh, serve_stale, refresh_recently_failed, cache_is_fresh, allow_refresh_on_miss,
  fetch_and_store, refresh, throttled, locked, unless_found, or_miss,
}
use jwt_service_app.Jwks.Quiet.{
  IsQuiet, IsQuiet-trans, recent-IsQuiet, find_fresh-IsQuiet, entry_recent-IsQuiet,
  stale_if-IsQuiet, allow-cases,
}

module _ (r : Remote) (c : Settings) where
  -- The key service answers with a list of keys.
  abbrev pub Answers : Type 0
  Answers = (n : ℕ) → (jwks : List Jwk) × (body_of r (r.list_keys n) ≡ ok jwks)

  module _ (start : ℕ) where
    -- The key service has answered during the burst.
    pub record IsSettled (cache : CacheState) : Type 0 where
      pub jwks : List Jwk
      pub fetch : ℕ
      pub fetched : start ≤ fetch
      pub entry : cache.entry ≡ some (jwks, r.clock fetch)
      pub attempt : ℕ
      pub begun : start ≤ attempt
      pub attempted : cache.last_attempt ≡ some (r.clock attempt)
      pub no_failure : cache.last_failure ≡ none

    -- Nothing has changed but the clock, or one request has settled the cache.
    abbrev pub IsEither : Service → Service → Type 0
    IsEither s s' = IsQuiet s s' ⊎ ((s'.requests ≤ s.requests + 1) × IsSettled s'.cache)

    refresh-IsSettled :
        (kid : Text) (s : Service)
        → Answers
        → start ≤ s.reads
        → IsSettled (refresh r c kid s).1.cache
    unfolding refresh fetch_and_store public_keys
    refresh-IsSettled kid s answers begun =
        let (jwks, answered) = answers s.requests in
        rw answered (record {
          jwks = jwks;
          fetch = s.reads + 1;
          fetched = omega (arith, begun);
          entry = refl;
          attempt = s.reads;
          begun = begun;
          attempted = refl;
          no_failure = refl;
        })

    refresh-IsEither :
        (kid : Text) (s : Service) → Answers → start ≤ s.reads → IsEither s (refresh r c kid s).1
    refresh-IsEither kid s answers begun =
        inr ((refresh-Asks r c kid s).0, refresh-IsSettled kid s answers begun)

    -- After what changes nothing but the clock.
    IsQuiet-IsEither : {s s' s'' : Service} → IsQuiet s s' → IsEither s' s'' → IsEither s s''
    IsQuiet-IsEither q (inl q') = inl (IsQuiet-trans q q')
    IsQuiet-IsEither q (inr (asked, settled)) = inr (omega (arith, asked, q.requests), settled)

    refresh_unless-IsEither :
        (kid : Text) (fresh : Bool) (s : Service)
        → Answers
        → start ≤ s.reads
        → IsEither s ((if fresh then pure (err not_found) else refresh r c kid) s).1
    refresh_unless-IsEither kid true s answers begun =
        inl (record { cache = refl; requests = refl })
    refresh_unless-IsEither kid false s answers begun = refresh-IsEither kid s answers begun

    unless_found-IsEither :
        (kid : Text) (o : Option Jwk) (s : Service)
        → Answers
        → start ≤ s.reads
        → IsEither s (unless_found r c kid o s).1
    unfolding cache_is_fresh
    unless_found-IsEither kid (some k) s answers begun =
        inl (record { cache = refl; requests = refl })
    unless_found-IsEither kid none s answers begun =
        IsQuiet-IsEither (entry_recent-IsQuiet r c s.cache.entry s) (
          refresh_unless-IsEither kid (cache_is_fresh r c s).0 (cache_is_fresh r c s).1 answers
            (omega (arith, entry_recent-Asks r c s.cache.entry s, begun)))

    throttled-IsEither :
        (kid : Text) (s : Service) → Answers → start ≤ s.reads → IsEither s (throttled r c kid s).1
    unfolding throttled refresh_recently_failed
    throttled-IsEither kid s answers begun =
        let (failed, s1) = refresh_recently_failed r c s in
        let (found, s2) = (if failed then serve_stale r c kid else pure none) s1 in
        IsQuiet-IsEither (recent-IsQuiet r c c.miss_refresh_interval s.cache.last_failure s) (
          IsQuiet-IsEither (stale_if-IsQuiet r c kid failed s1) (
            unless_found-IsEither kid found s2 answers (
              omega (
                arith,
                recent-Asks r c c.miss_refresh_interval s.cache.last_failure s,
                stale_if-Asks r c kid failed s1,
                begun,
              ))))

    or_miss-IsEither :
        (kid : Text) (o : Option Jwk) (s : Service)
        → Answers
        → start ≤ s.reads
        → IsEither s (or_miss r c kid o s).1
    or_miss-IsEither kid (some k) s answers begun = inl (record { cache = refl; requests = refl })
    or_miss-IsEither kid none s answers begun = elim (allow-cases r c s) [
      | inl (early, q) ↦ rw early (
          IsQuiet-IsEither q (
            throttled-IsEither kid (allow_refresh_on_miss r c s).1 answers
              (omega (arith, allow_refresh_on_miss-Asks r c s, begun))))
      | inr allowed ↦ rw allowed (
          inr (
            omega (
              arith,
              allow_refresh_on_miss-Asks r c s,
              refresh-Asks r c kid (allow_refresh_on_miss r c s).1,
            ),
            refresh-IsSettled kid (allow_refresh_on_miss r c s).1 answers
                (omega (arith, allow_refresh_on_miss-Asks r c s, begun)),
          ))
    ]

    pub locked-IsEither :
        (kid : Text) (s : Service) → Answers → start ≤ s.reads → IsEither s (locked r c kid s).1
    unfolding locked lookup_fresh
    locked-IsEither kid s answers begun =
        IsQuiet-IsEither (find_fresh-IsQuiet r c kid s.cache.entry s) (
          or_miss-IsEither kid (lookup_fresh r c kid s).0 (lookup_fresh r c kid s).1 answers
            (omega (arith, lookup_fresh-Asks r c kid s, begun)))
