-- ===== src/Tests/LifecycleTests.antt =====
-- A token that is issued over the API and verified over the API.
use jwt_service_app.Base.{ℕ, ◌+◌, ◌≡◌, refl, true, none, some, [], ◌∷◌, ok, arith}
use jwt_service_app.Base.Text.{codes, text_eq}
use jwt_service_app.Token.Platform.{TokenClaims}
use jwt_service_app.Handlers.{TokenRequest}
use jwt_service_app.Routes.{Endpoint, configure_api}
use jwt_service_app.Routes.Endpoints.{Incoming, Extract, KeyProbe, Response, Body}
use jwt_service_app.Routes.Serve.{App, Reply, serve}
use jwt_service_app.Routes.Lifecycle.{serve-created}
use jwt_service_app.Tests.Samples.{no_variables, empty, store}
use jwt_service_app.Tests.TokenTests.{sample_token, world}
use jwt_service_app.Tests.RoundTripTests.{
  early, early_keys, early-ReadsBack, lawful-KeyPair, token_request,
}
use jwt_service_app.Tests.RouteTests.{site, access, with_secrets, request, limit_address, limit_all}

abbrev bodies : Extract (Unit {0})
bodies = record {
  token_request = λ req. some token_request;
  verify_request = λ req. some (record { token = sample_token; audience = codes "a" });
  refresh_request = λ req. none;
  segment = λ req. none;
  specification = [];
  exposition = λ events. [];
}

abbrev up : KeyProbe early no_variables store early_keys
up now s = (true, true, s)

abbrev Application : Type 0
Application = App site early no_variables store early_keys access bodies up

abbrev at_first : Application
at_first = record {
  process = record { world = world empty; counted = [] };
  limits = record { bucket = 0; buckets = 0 };
}

abbrev answer : Incoming → Application → Reply (Unit {0}) × Application
answer =
    serve site early no_variables store early_keys access bodies up
      (configure_api access limit_address limit_all [])

abbrev issuing : Incoming
issuing = request (codes "POST") (codes "/tokens") with_secrets

abbrev verifying : Incoming
verifying = request (codes "POST") (codes "/tokens/verify") with_secrets

serve-created_example :
    (claims : TokenClaims (Unit {0})) × ((answer verifying (answer issuing at_first).1).0
      ≡ Reply.handled Endpoint.verify_token (Response.responded (ok (Body.verified claims))))
    × (claims.sub ≡ codes "s")
    × (claims.jti ≡ codes "u")
    × (claims.extra ≡ [])
unfolding configure_api serve text_eq jwt_service_app.Manager.generate_token
    jwt_service_app.Token.Claims.create_new jwt_service_app.Base.Text.parse_uint
    jwt_service_app.Token.Claims.claims_valid jwt_service_app.Redis.check_jti
    jwt_service_app.Redis.store_jti jwt_service_app.Redis.add_to_group
    jwt_service_app.Redis.Keyspace.exists jwt_service_app.Redis.Keyspace.set_ex
    jwt_service_app.Redis.Keyspace.zadd jwt_service_app.Redis.Keyspace.expire_at
    jwt_service_app.Env.env_u64 jwt_service_app.Store.subject_group
    jwt_service_app.Token.Signed.to_string jwt_service_app.Token.Headers.headers_to_base64
    jwt_service_app.Token.Claims.claims_to_base64 jwt_service_app.Token.Headers.headers_for
    jwt_service_app.Handlers.create_token jwt_service_app.Handlers.issuer_for_issuance
    jwt_service_app.Handlers.issue jwt_service_app.Issuer.is_allowed jwt_service_app.Base.Text.split
    jwt_service_app.Base.Text.to_ascii_lowercase jwt_service_app.Base.Text.trim
    jwt_service_app.Auth.Hotp.hotp
serve-created_example =
    serve-created site early no_variables store early_keys access bodies up limit_address limit_all
      [] issuing verifying at_first (answer issuing at_first).1 (answer issuing at_first).1
      token_request (record { token = sample_token; refresh_token = none }) (codes "h") (codes "a")
      (codes "k") tt tt 49 50 (record { bucket = 1; buckets = 1 }) early-ReadsBack refl refl refl
      refl refl refl refl refl refl refl refl (omega arith) (omega arith) refl refl refl refl refl
      refl refl refl lawful-KeyPair refl
