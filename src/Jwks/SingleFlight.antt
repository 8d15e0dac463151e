-- ===== src/Jwks/SingleFlight.antt =====
-- jwk.rs: what a burst of requests for public keys asks of the key service. Calls of `public_key`
-- interleave: each looks in the cache, and those that miss take the refresh lock, one at a time, in any
-- order.
use jwt_service_app.Base.{
  ℕ, ◌+◌, ◌-◌, ◌≤◌, ◌<◌, ◌≡◌, refl, sym, ap, subst, ◌∙◌, true, false, Bool-cases, Option, none,
  some, List, [], ◌∷◌, ltb, Result, err, arith, inl, inr, if◌then◌else◌,
}
use jwt_service_app.Base.Text.{Text}
use jwt_service_app.Jwks.Service.{Jwk, JwkError, not_found, Remote, Settings, Service, pure}
use jwt_service_app.Jwks.Requests.{
  refresh_if-Asks, refresh_unless-Asks, lookup_fresh-Asks, locked-Asks,
}
use jwt_service_app.Jwks.Cache.{
  lookup_fresh, refresh_recently_failed, cache_is_fresh, allow_refresh_on_miss, refresh, throttled,
  locked, or_miss,
}
use jwt_service_app.Jwks.Quiet.{IsQuiet, IsQuiet-trans, find_fresh-IsQuiet, look-IsQuiet}
use jwt_service_app.Jwks.Settled.{Answers, IsSettled, locked-IsEither}

-- A look at the cache, or a turn under the refresh lock.
pub data Turn : Type 0 where
  look : Text → Turn
  take_lock : Text → Turn

module _ (r : Remote) (c : Settings) where
  unfoldable pub take_turns : List Turn → Service → Service
  unfolding lookup_fresh locked
  take_turns [] s = s
  take_turns (look kid ∷ turns) s = take_turns turns (lookup_fresh r c kid s).1
  take_turns (take_lock kid ∷ turns) s = take_turns turns (locked r c kid s).1

  -- From one moment of the burst to another, by number, less time passes than a limit.
  abbrev pub IsWithin : ℕ → ℕ → ℕ → Type 0
  IsWithin start last limit = (i j : ℕ) → start ≤ j → i < last → r.clock i - r.clock j < limit

  module _ (start last : ℕ) where
    take_turns-advances : (turns : List Turn) (s : Service) → s.reads ≤ (take_turns turns s).reads
    unfolding take_turns
    take_turns-advances [] s = omega arith
    take_turns-advances (look kid ∷ turns) s =
        omega
          (arith, lookup_fresh-Asks r c kid s, take_turns-advances turns (lookup_fresh r c kid s).1)
    take_turns-advances (take_lock kid ∷ turns) s =
        omega (arith, locked-Asks r c kid s, take_turns-advances turns (locked r c kid s).1)

    abbrev later : Service → Service
    later s = record s { reads = s.reads + 1 }

    -- Under the lock, on a settled cache: no failure to serve a stale key for, and a look at the age.
    throttled-settled :
        (kid : Text) (s : Service) (settled : IsSettled r c start s.cache)
        → throttled r c kid s
          ≡ (if ltb (r.clock s.reads - r.clock settled.fetch) c.cache_ttl
                then pure (err not_found)
                else refresh r c kid)
              (later s)
    unfolding throttled refresh_recently_failed cache_is_fresh
    throttled-settled kid s settled =
        rw (settled.no_failure, throttled, refresh_recently_failed)
          (rw (settled.entry, cache_is_fresh) refl)

    allow-settled :
        (s : Service) (settled : IsSettled r c start s.cache)
        → ltb (r.clock s.reads - r.clock settled.attempt) c.miss_refresh_interval ≡ true
        → allow_refresh_on_miss r c s ≡ (false, later s)
    unfolding allow_refresh_on_miss
    allow-settled s settled early = rw (settled.attempted, allow_refresh_on_miss) (rw early refl)

    allow-advances :
        (s : Service)
        → IsSettled r c start s.cache
        → s.reads + 1 ≤ (allow_refresh_on_miss r c s).1.reads
    unfolding allow_refresh_on_miss
    allow-advances s settled =
        elim (Bool-cases
          (ltb (r.clock s.reads - r.clock settled.attempt) c.miss_refresh_interval)) [
            | inl early ↦ rw (settled.attempted, allow_refresh_on_miss) (rw early (omega arith))
            | inr late ↦ rw (settled.attempted, allow_refresh_on_miss) (rw late (omega arith))
          ]

    -- Once the cache is settled, a turn under the lock asks nothing.
    module _ (ttl_left : IsWithin start last c.cache_ttl)
        (interval_left : IsWithin start last c.miss_refresh_interval) where
      throttled-IsQuiet :
          (kid : Text) (s : Service)
          → IsSettled r c start s.cache
          → (throttled r c kid s).1.reads ≤ last
          → IsQuiet s (throttled r c kid s).1
      throttled-IsQuiet kid s settled over =
          let here = throttled-settled kid s settled in
          let fresh = ltb (r.clock s.reads - r.clock settled.fetch) c.cache_ttl in
          let on_time : s.reads < last = omega (
            arith,
            over,
            ap (λ (x : Result JwkError Jwk × Service). x.1.reads) here,
            refresh_unless-Asks r c kid fresh (later s),
          ) in
          let young : fresh ≡ true =
            ground (arith, ttl_left s.reads settled.fetch settled.fetched on_time) in
          rw (here, young) (record { cache = refl; requests = refl })

      settled_miss-IsQuiet :
          (kid : Text) (s : Service)
          → IsSettled r c start s.cache
          → (or_miss r c kid none s).1.reads ≤ last
          → IsQuiet s (or_miss r c kid none s).1
      settled_miss-IsQuiet kid s settled over =
          let (allowed, s') = allow_refresh_on_miss r c s in
          let on_time : s.reads < last =
            omega (arith, over, allow-advances s settled, refresh_if-Asks r c kid allowed s') in
          let early : ltb (r.clock s.reads - r.clock settled.attempt) c.miss_refresh_interval
              ≡ true =
            ground (arith, interval_left s.reads settled.attempt settled.begun on_time) in
          let put_off = allow-settled s settled early in
          rw put_off (
            IsQuiet-trans {s' = later s} (record { cache = refl; requests = refl })
              (throttled-IsQuiet kid (later s) settled (rw put_off at over)))

      or_miss-IsQuiet :
          (kid : Text) (o : Option Jwk) (s : Service)
          → IsSettled r c start s.cache
          → (or_miss r c kid o s).1.reads ≤ last
          → IsQuiet s (or_miss r c kid o s).1
      or_miss-IsQuiet kid (some k) s settled over = record { cache = refl; requests = refl }
      or_miss-IsQuiet kid none s settled over = settled_miss-IsQuiet kid s settled over

      locked-IsQuiet :
          (kid : Text) (s : Service)
          → IsSettled r c start s.cache
          → (locked r c kid s).1.reads ≤ last
          → IsQuiet s (locked r c kid s).1
      unfolding locked lookup_fresh
      locked-IsQuiet kid s settled over =
          let q = find_fresh-IsQuiet r c kid s.cache.entry s in
          IsQuiet-trans q (
            or_miss-IsQuiet kid (lookup_fresh r c kid s).0 (lookup_fresh r c kid s).1
              (subst (IsSettled r c start) (sym q.cache) settled) over)

      settled-asks_nothing :
          (turns : List Turn) (s : Service)
          → IsSettled r c start s.cache
          → (take_turns turns s).reads ≤ last
          → (take_turns turns s).requests ≡ s.requests
      unfolding take_turns
      settled-asks_nothing [] s settled over = refl
      settled-asks_nothing (look kid ∷ turns) s settled over =
          let q = look-IsQuiet r c kid s in
          settled-asks_nothing turns (lookup_fresh r c kid s).1
            (subst (IsSettled r c start) (sym q.cache) settled) over
          ∙ q.requests
      settled-asks_nothing (take_lock kid ∷ turns) s settled over =
          let q =
            locked-IsQuiet kid s settled
              (omega (arith, over, take_turns-advances turns (locked r c kid s).1)) in
          settled-asks_nothing turns (locked r c kid s).1
            (subst (IsSettled r c start) (sym q.cache) settled) over
          ∙ q.requests

      burst-asks_once :
          (turns : List Turn) (s : Service)
          → Answers r c
          → start ≤ s.reads
          → (take_turns turns s).reads ≤ last
          → (take_turns turns s).requests ≤ s.requests + 1
      unfolding take_turns
      burst-asks_once [] s answers begun over = omega arith
      burst-asks_once (look kid ∷ turns) s answers begun over =
          let s' = (lookup_fresh r c kid s).1 in
          omega (
            arith,
            (look-IsQuiet r c kid s).requests,
            burst-asks_once turns s' answers (omega (arith, begun, lookup_fresh-Asks r c kid s))
                over,
          )
      burst-asks_once (take_lock kid ∷ turns) s answers begun over =
          let s' = (locked r c kid s).1 in
          elim (locked-IsEither r c start kid s answers begun) [
            | inl q ↦ omega (
              arith,
              q.requests,
              burst-asks_once turns s' answers (omega (arith, begun, locked-Asks r c kid s)) over,
            )
            | inr (asked, settled) ↦
                omega (arith, asked, settled-asks_nothing turns s' settled over)
          ]

  -- However calls of `public_key` interleave, for whatever keys, a burst of them sends one request to
  -- the key service at most: as long as the key service answers what it is asked, and between any two
  -- moments of the burst less time passes than the time to live of the cache and than the interval
  -- between refreshes.
  pub take_turns-requests :
      (turns : List Turn) (s : Service)
      → Answers r c
      → IsWithin s.reads (take_turns turns s).reads c.cache_ttl
      → IsWithin s.reads (take_turns turns s).reads c.miss_refresh_interval
      → (take_turns turns s).requests ≤ s.requests + 1
  take_turns-requests turns s answers ttl_left interval_left =
      burst-asks_once s.reads (take_turns turns s).reads ttl_left interval_left turns s answers
        (omega arith) (omega arith)
