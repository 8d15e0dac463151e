-- ===== src/Jwks/Outage.antt =====
-- jwk.rs: what is answered when the key service does not answer.
use jwt_service_app.Base.{
  ℕ, ◌+◌, ◌-◌, ◌<◌, ◌≡◌, ◌≢◌, refl, sym, ap, subst, ◌∙◌, ◌≤◌, ◌↔◌, ◌==◌, false, Bool-cases, Option,
  Option-cases, none, some, List, is_empty, leb, Result, ok, err, ok_or, arith, inl, inr,
}
use jwt_service_app.Base.Text.{Text}
use jwt_service_app.Jwks.Service.{
  Jwk, JwkData, JwkError, bad_connection, bad_response, not_found, Reply, unreachable, response,
  Remote, Settings, Service, public_keys,
}
use jwt_service_app.Jwks.Cache.{
  find_kid, duration_max, servable_max_age, serve_stale, fetch_and_store, refresh, find_stale,
  or_fetched,
}
use jwt_service_app.Jwks.PrivateKeys.{key_of_reply, is_success, private_key, or_create}

leb-false : {a b : ℕ} → leb a b ≡ false → b < a
leb-false h = ground (arith, h)

module _ (r : Remote) (c : Settings) where
  serve_stale-some :
      (kid : Text) (s : Service) (k : Jwk)
      → (serve_stale r c kid s).0 ≡ some k
      → (jwks : List Jwk) × (at : ℕ) × (s.cache.entry ≡ some (jwks, at))
        × (r.clock s.reads - at < servable_max_age c)
        × (find_kid kid jwks ≡ some k)
  unfolding serve_stale
  serve_stale-some kid s k h = of s.cache.entry refl h
    where
      of :
          (e : Option (List Jwk × ℕ))
          → s.cache.entry ≡ e
          → (find_stale r c kid e s).0 ≡ some k
          → (jwks : List Jwk) × (at : ℕ) × (s.cache.entry ≡ some (jwks, at))
            × (r.clock s.reads - at < servable_max_age c)
            × (find_kid kid jwks ≡ some k)
      of none there h = absurd (cc h)
      of (some (jwks, at)) there h =
          elim (Bool-cases (leb (servable_max_age c) (r.clock s.reads - at))) [
            | inl too_old ↦ absurd (cc (rw too_old at h))
            | inr young ↦ (jwks, at, there, leb-false young, rw young at h)
          ]

  serve_stale-young :
      (kid : Text) (s : Service) (jwks : List Jwk) (at : ℕ)
      → s.cache.entry ≡ some (jwks, at)
      → r.clock s.reads - at < servable_max_age c
      → (serve_stale r c kid s).0 ≡ find_kid kid jwks
  unfolding serve_stale
  serve_stale-young kid s jwks at there young =
      let not_old : leb (servable_max_age c) (r.clock s.reads - at) ≡ false =
        ground (arith, young) in
      rw (there, serve_stale, not_old) refl

  abbrev pub Servable : Text → Service → Jwk → Type 0
  Servable kid s k =
      (jwks : List Jwk) × (at : ℕ) × (s.cache.entry ≡ some (jwks, at))
      × (0 < c.cache_ttl)
      × (r.clock s.reads - at < c.cache_ttl + c.stale_grace)
      × (find_kid kid jwks ≡ some k)

  below_max :
      (age : ℕ) → age < servable_max_age c → (0 < c.cache_ttl) × (age < c.cache_ttl + c.stale_grace)
  unfolding servable_max_age
  below_max age h = (ground (arith, h), ground (arith, h))

  max_above :
      (age : ℕ)
      → c.cache_ttl + c.stale_grace ≤ duration_max
      → 0 < c.cache_ttl
      → age < c.cache_ttl + c.stale_grace
      → age < servable_max_age c
  unfolding servable_max_age
  max_above age fits on h = ground (arith, fits, on, h)

  -- A snapshot is served in an outage exactly while it is young enough: the cache is on, the age of
  -- the snapshot is below the time to live and the grace together, and it holds the key. Their sum is
  -- a duration, that is, it does not saturate.
  pub serve_stale-Servable :
      (kid : Text) (s : Service) (k : Jwk)
      → c.cache_ttl + c.stale_grace ≤ duration_max
      → ((serve_stale r c kid s).0 ≡ some k) ↔ Servable kid s k
  serve_stale-Servable kid s k fits = (
    λ h.
        let (jwks, at, there, young, found) = serve_stale-some kid s k h in
        let (on, below) = below_max (r.clock s.reads - at) young in
        (jwks, at, there, on, below, found),
    λ h.
        let (jwks, at, there, on, below, found) = h in
        serve_stale-young kid s jwks at there (max_above (r.clock s.reads - at) fits on below)
        ∙ found,
  )

  -- The cache after a trip to the key service that got no reply.
  fetch_and_store-unreachable :
      (s : Service)
      → r.list_keys s.requests ≡ unreachable
      → ((fetch_and_store r c s).0 ≡ err bad_connection)
        × ((fetch_and_store r c s).1.cache.entry ≡ s.cache.entry)
        × ((fetch_and_store r c s).1.reads ≡ s.reads + 1 + 1)
  unfolding fetch_and_store public_keys
  fetch_and_store-unreachable s out = (
    rw (out, fetch_and_store, public_keys) refl,
    rw (out, fetch_and_store, public_keys) refl,
    rw (out, fetch_and_store, public_keys) refl,
  )

  -- While a key service that does not answer is out, `refresh` answers from the snapshot: a key that
  -- it holds is still found as long as its age, when it is looked at, is servable.
  pub refresh-outage :
      (kid : Text) (s : Service) (jwks : List Jwk) (at : ℕ) (k : Jwk)
      → r.list_keys s.requests ≡ unreachable
      → s.cache.entry ≡ some (jwks, at)
      → r.clock (s.reads + 1 + 1) - at < servable_max_age c
      → find_kid kid jwks ≡ some k
      → (refresh r c kid s).0 ≡ ok k
  unfolding refresh
  refresh-outage kid s jwks at k out there young found =
      let (failed, kept, later) = fetch_and_store-unreachable s out in
      let s' : Service = (fetch_and_store r c s).1 in
      let served : (serve_stale r c kid s').0 ≡ some k =
        serve_stale-young kid s' jwks at (kept ∙ there)
          (subst (λ n. r.clock n - at < servable_max_age c) (sym later) young)
        ∙ found in
      ap (λ o. (or_fetched r c kid o s').0) failed ∙ ap (ok_or bad_connection) served

module _ (r : Remote) where
  or_create-passes :
      (alg : Text) (o : Result JwkError JwkData) (s : Service)
      → o ≢ err not_found
      → or_create r alg o s ≡ (o, s)
  or_create-passes alg (ok k) s other = refl
  or_create-passes alg (err bad_connection) s other = refl
  or_create-passes alg (err bad_response) s other = refl
  or_create-passes alg (err not_found) s other = absurd (other refl)

  answered_otherwise :
      (reply : Reply JwkData)
      → ((body : Option JwkData) → reply ≢ response 404 body)
      → key_of_reply reply ≢ err not_found
  unfolding key_of_reply
  answered_otherwise unreachable other h = cc h
  answered_otherwise (response status body) other h = elim (Bool-cases (status == 404)) [
    | inl missing ↦ other body (ap (λ n. response n body) (ground (arith, missing)))
    | inr found ↦ elim (Bool-cases (is_success status)) [
      | inl good ↦ elim (Option-cases body) [
        | inl nothing ↦ cc (rw (found, good, nothing) at h)
        | inr (key, there) ↦ cc (rw (found, good, there) at h)
      ]
      | inr bad ↦ cc (rw (found, bad) at h)
    ]
  ]

  -- With an identifier of a key in memory, a key is created only on the answer 404: after any other
  -- reply, an error of the service or of the network included, `private_key` has sent the one request
  -- for that key and none to create another, and does not answer that the key is missing.
  pub private_key-no_creation :
      (id alg : Text) (s : Service)
      → is_empty id ≡ false
      → ((body : Option JwkData) → r.read_key id s.requests ≢ response 404 body)
      → ((private_key r id alg s).1 ≡ record s { requests = s.requests + 1 })
        × ((private_key r id alg s).0 ≢ err not_found)
  unfolding private_key
  private_key-no_creation id alg s named other =
      let kept : key_of_reply (r.read_key id s.requests) ≢ err not_found =
        answered_otherwise _ other in
      let passed : private_key r id alg s
          ≡ (key_of_reply (r.read_key id s.requests), record s { requests = s.requests + 1 }) =
        rw (named, private_key) (or_create-passes alg _ _ kept) in
      (ap (λ o. o.1) passed, λ h. kept (sym (ap (λ o. o.0) passed) ∙ h))
