-- ===== src/Tests/JwksTests.antt =====
-- Runs of jwk.rs.
use jwt_service_app.Base.{ℕ, ◌+◌, ◌≤◌, ◌≡◌, refl, none, some, [], ◌∷◌, ok, arith, ◌↔◌, ◌≢◌, err, ap}
use jwt_service_app.Base.Text.{codes, text_eq}
use jwt_service_app.Jwks.Service.{
  Jwk, unreachable, response, Remote, Settings, Service, fresh_service, not_found, Reply, JwkData,
}
use jwt_service_app.Jwks.Cache.{servable_max_age, serve_stale, refresh, public_key}
use jwt_service_app.Jwks.PrivateKeys.{private_key}
use jwt_service_app.Jwks.Answers.{public_key-kid}
use jwt_service_app.Jwks.SingleFlight.{look, take_lock, take_turns, take_turns-requests}
use jwt_service_app.Jwks.Outage.{
  Servable, serve_stale-Servable, refresh-outage, private_key-no_creation,
}

abbrev key_one : Jwk
key_one = record {
  kty = codes "RSA";
  alg = codes "RS256";
  kid = codes "one";
  crv = none;
  x = none;
  y = none;
  n = some (codes "AQ");
  e = some (codes "AQAB");
}

-- A key service that lists one key, and one that is out.
abbrev remote : Remote
remote = record {
  list_keys = λ n. response 200 (some (key_one ∷ []));
  read_key = λ id n. response 500 none;
  new_key = λ alg n. unreachable;
  clock = λ n. 1000;
}

abbrev down : Remote
down = record {
  list_keys = λ n. unreachable;
  read_key = λ id n. response 500 none;
  new_key = λ alg n. unreachable;
  clock = λ n. 1000;
}

abbrev times : Settings
times = record { cache_ttl = 300; miss_refresh_interval = 10; stale_grace = 50 }

-- The snapshot was taken at 700: it is too old to be fresh, and young enough to be served.
abbrev old_snapshot : Service
old_snapshot = record {
  cache = record { entry = some (key_one ∷ [], 700); last_attempt = none; last_failure = none };
  reads = 0;
  requests = 0;
}

public_key-kid_example : codes "one" ≡ codes "one"
unfolding public_key text_eq
public_key-kid_example = public_key-kid remote times (codes "one") fresh_service key_one refl

serve_stale-Servable_example :
    ((serve_stale down times (codes "one") old_snapshot).0 ≡ some key_one)
    ↔ Servable down times (codes "one") old_snapshot key_one
unfolding serve_stale text_eq
serve_stale-Servable_example =
    serve_stale-Servable down times (codes "one") old_snapshot key_one (omega arith)

refresh-outage_example : (refresh down times (codes "one") old_snapshot).0 ≡ ok key_one
unfolding servable_max_age text_eq
refresh-outage_example =
    refresh-outage down times (codes "one") old_snapshot (key_one ∷ []) 700 key_one refl refl
      (omega arith) refl

abbrev status_of : Reply JwkData → ℕ
status_of unreachable = 0
status_of (response status body) = status

private_key-no_creation_example :
    ((private_key down (codes "one") (codes "RS256") fresh_service).1
      ≡ record fresh_service { requests = 0 + 1 })
    × ((private_key down (codes "one") (codes "RS256") fresh_service).0 ≢ err not_found)
private_key-no_creation_example =
    private_key-no_creation down (codes "one") (codes "RS256") fresh_service refl
      (λ body h. absurd (omega (arith, ap status_of h)))

-- Two calls miss, and both take the lock; one of them looks for a key that is not there.
take_turns-requests_example :
    (take_turns remote times
      (look (codes "one")
        ∷ look (codes "two")
        ∷ take_lock (codes "two")
        ∷ take_lock (codes "one")
        ∷ [])
      fresh_service).requests
    ≤ 0 + 1
take_turns-requests_example =
    take_turns-requests remote times
      (look (codes "one")
        ∷ look (codes "two")
        ∷ take_lock (codes "two")
        ∷ take_lock (codes "one")
        ∷ [])
      fresh_service (λ n. (key_one ∷ [], refl)) (λ i j b e. omega arith) (λ i j b e. omega arith)
