-- ===== src/Routes.antt =====
-- main.rs: `deny_cors` and `configure_api`, as the table of resources that they register, with the
-- layers that each `.wrap` puts around a resource, the last outermost. Routes/Endpoints runs the
-- handlers, Routes/Serve takes a request through the table, and Routes/Startup is `main`.
pub mod Endpoints
pub mod Serve
pub mod Startup
pub mod Starts
pub mod Layers
pub mod Levels
pub mod Order
pub mod Flood
pub mod Arrival
pub mod Revoked
pub mod Lifecycle
pub mod Quiet
use jwt_service_app.Base.{
  ℕ, Bool, true, false, Option, none, some, List, [], ◌∷◌, ◌++◌, is_empty, if◌then◌else◌,
}
use jwt_service_app.Base.Text.{Text, codes}
use jwt_service_app.Auth.Config.{
  AuthLevel, open_level, proxy_secret, totp, metrics_token, AuthConfig, metrics_enabled,
}
use jwt_service_app.RateLimit.Limiter.{Strategy}

-- The handlers that a route leads to.
pub data Endpoint : Type 0 where
  create_token verify_token refresh_token revoke_token revoke_subject_tokens : Endpoint
  metrics openapi_spec livez readyz : Endpoint

-- A policy of the crate actix-cors, as its builder is called.
pub record Cors : Type 0 where
  pub any_origin : Bool
  pub allowed_origins : List Text
  pub allowed_methods : List Text
  pub any_header : Bool
  pub max_age : Option ℕ

-- `Cors::default()`: nothing is allowed.
unfoldable pub deny_cors : Cors
deny_cors = record {
  any_origin = false;
  allowed_origins = [];
  allowed_methods = [];
  any_header = false;
  max_age = none;
}

-- What `.wrap` puts around a service.
pub data Layer : Type 0 where
  cors_layer : Cors → Layer
  auth_layer : AuthLevel → Layer
  limit_layer : Strategy → Layer

-- `web::resource`: its pattern, its layers in the order of the calls, its method and its handler.
pub record Resource : Type 0 where
  pub pattern : Text
  pub wraps : List Layer
  pub method : Text
  pub endpoint : Endpoint

-- The resources in the order of their registration, and the scope with the empty prefix, which
-- comes last: its layers and its routes.
pub record Api : Type 0 where
  pub resources : List Resource
  pub scope_wraps : List Layer
  pub scope_routes : List Resource

abbrev allow_origins : List Text → Cors → Cors
allow_origins [] cors = cors
allow_origins (origin ∷ origins) cors =
    allow_origins origins (record cors { allowed_origins = cors.allowed_origins ++ (origin ∷ []) })

-- The policy of the only public endpoint.
unfoldable pub verify_cors : List Text → Cors
unfolding deny_cors
verify_cors cors_origins =
    let base = record deny_cors {
      allowed_methods = codes "POST" ∷ [];
      any_header = true;
      max_age = some 3600;
    } in
    if is_empty cors_origins
    then record base { any_origin = true }
    else allow_origins cors_origins base

-- The layers of an endpoint that issues or revokes.
abbrev pub internal_wraps : Strategy → List Layer
internal_wraps limiter = limit_layer limiter ∷ auth_layer totp ∷ cors_layer deny_cors ∷ []

abbrev pub plain_wraps : AuthLevel → List Layer
plain_wraps level = auth_layer level ∷ cors_layer deny_cors ∷ []

abbrev pub internal : Strategy → Text → Text → Endpoint → Resource
internal limiter pattern method endpoint = record {
  pattern = pattern;
  wraps = internal_wraps limiter;
  method = method;
  endpoint = endpoint;
}

abbrev pub verify_resource : Strategy → List Text → Resource
verify_resource limiter cors_origins = record {
  pattern = codes "/tokens/verify";
  wraps =
      auth_layer proxy_secret ∷ limit_layer limiter ∷ cors_layer (verify_cors cors_origins) ∷ [];
  method = codes "POST";
  endpoint = verify_token;
}

abbrev pub metrics_resource : Resource
metrics_resource = record {
  pattern = codes "/metrics";
  wraps = plain_wraps metrics_token;
  method = codes "GET";
  endpoint = metrics;
}

-- A route of the scope has no layer of its own.
abbrev pub probe : Text → Endpoint → Resource
probe pattern endpoint = record {
  pattern = pattern;
  wraps = [];
  method = codes "GET";
  endpoint = endpoint;
}

unfoldable pub configure_api : AuthConfig → Strategy → Strategy → List Text → Api
unfolding metrics_enabled
configure_api auth verify_limiter internal_limiter cors_origins = record {
  resources =
      internal internal_limiter (codes "/tokens") (codes "POST") create_token
      ∷ verify_resource verify_limiter cors_origins
      ∷ internal internal_limiter (codes "/tokens/refresh") (codes "POST") refresh_token
      ∷ internal internal_limiter (codes "/tokens/{jti}") (codes "DELETE") revoke_token
      ∷ internal internal_limiter (codes "/subjects/{sub}/tokens") (codes "DELETE")
          revoke_subject_tokens
      ∷ (if metrics_enabled auth then metrics_resource ∷ [] else []);
  scope_wraps = plain_wraps open_level;
  scope_routes =
      probe (codes "/api-docs/openapi.json") openapi_spec
      ∷ probe (codes "/livez") livez
      ∷ probe (codes "/readyz") readyz
      ∷ [];
}
