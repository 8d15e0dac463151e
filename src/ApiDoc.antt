-- ===== src/ApiDoc.antt =====
-- openapi.rs, with the attributes `#[utoipa::path]` of handlers.rs: the description of the API that is
-- served at `/api-docs/openapi.json`, as data. The descriptions in words are left out, and so is the
-- JSON form, which is the crate utoipa's.
pub mod Registered
pub mod Replies
pub mod Documented
pub mod Undocumented
pub mod Statuses
pub mod Answers
use jwt_service_app.Base.{ℕ, Option, none, some, List, [], ◌∷◌, ◌++◌}
use jwt_service_app.Base.Text.{Text, codes}
use jwt_service_app.Routes.{Endpoint}

-- One line of `responses(...)`: a status and the name of the schema of the body.
abbrev pub DocumentedReply : Type 0
DocumentedReply = ℕ × Option Text

-- What an attribute says of a handler.
pub record Operation : Type 0 where
  pub method : Text
  pub path : Text
  pub request_body : Option Text
  pub security : List Text
  pub responses : List DocumentedReply
  pub handler : Endpoint

abbrev with_error : ℕ → DocumentedReply
with_error status = (status, some (codes "ErrorResponse"))

unfoldable pub create_token_path : Operation
create_token_path = record {
  method = codes "POST";
  path = codes "/tokens";
  request_body = some (codes "TokenRequest");
  security = codes "totp" ∷ [];
  responses =
      (200, some (codes "TokenResponse"))
      ∷ with_error 400
      ∷ with_error 401
      ∷ with_error 403
      ∷ with_error 422
      ∷ with_error 429
      ∷ with_error 500
      ∷ [];
  handler = Endpoint.create_token;
}

unfoldable pub verify_token_path : Operation
verify_token_path = record {
  method = codes "POST";
  path = codes "/tokens/verify";
  request_body = some (codes "TokenVerifyRequest");
  security = codes "proxy_secret" ∷ [];
  responses = (200, none) ∷ with_error 400 ∷ with_error 401 ∷ with_error 429 ∷ [];
  handler = Endpoint.verify_token;
}

unfoldable pub revoke_token_path : Operation
revoke_token_path = record {
  method = codes "DELETE";
  path = codes "/tokens/{jti}";
  request_body = none;
  security = codes "totp" ∷ [];
  responses = (204, none) ∷ with_error 401 ∷ with_error 429 ∷ with_error 500 ∷ [];
  handler = Endpoint.revoke_token;
}

unfoldable pub revoke_subject_tokens_path : Operation
revoke_subject_tokens_path = record {
  method = codes "DELETE";
  path = codes "/subjects/{sub}/tokens";
  request_body = none;
  security = codes "totp" ∷ [];
  responses =
      (200, some (codes "RevokeGroupResponse"))
      ∷ with_error 401
      ∷ with_error 429
      ∷ with_error 500
      ∷ [];
  handler = Endpoint.revoke_subject_tokens;
}

unfoldable pub refresh_token_path : Operation
refresh_token_path = record {
  method = codes "POST";
  path = codes "/tokens/refresh";
  request_body = some (codes "RefreshRequest");
  security = codes "totp" ∷ [];
  responses =
      (200, some (codes "TokenResponse"))
      ∷ with_error 400
      ∷ with_error 401
      ∷ with_error 429
      ∷ with_error 500
      ∷ [];
  handler = Endpoint.refresh_token;
}

unfoldable pub metrics_path : Operation
metrics_path = record {
  method = codes "GET";
  path = codes "/metrics";
  request_body = none;
  security = [];
  responses = (200, none) ∷ [];
  handler = Endpoint.metrics;
}

unfoldable pub livez_path : Operation
livez_path = record {
  method = codes "GET";
  path = codes "/livez";
  request_body = none;
  security = [];
  responses = (200, none) ∷ [];
  handler = Endpoint.livez;
}

unfoldable pub readyz_path : Operation
readyz_path = record {
  method = codes "GET";
  path = codes "/readyz";
  request_body = none;
  security = [];
  responses =
      (200, some (codes "ReadinessResponse")) ∷ (503, some (codes "ReadinessResponse")) ∷ [];
  handler = Endpoint.readyz;
}

pub data SecurityScheme : Type 0 where
  api_key_header : Text → SecurityScheme
  http_bearer : SecurityScheme

pub record Components : Type 0 where
  pub schemas : List Text
  pub security_schemes : List (Text × SecurityScheme)

-- `SecurityAddon::modify`: the schemes, in the order of the calls, whose names are new.
unfoldable pub modify : Option Components → Option Components
modify none = none
modify (some components) = some (record components {
  security_schemes =
      components.security_schemes
      ++ ((codes "proxy_secret", api_key_header (codes "X-Proxy-Secret"))
          ∷ (codes "totp", api_key_header (codes "X-TOTP-Code"))
          ∷ (codes "metrics_token", http_bearer)
          ∷ []);
})

pub record OpenApi : Type 0 where
  pub paths : List Operation
  pub components : Option Components

-- `ApiDoc`
unfoldable pub api_doc : OpenApi
unfolding create_token_path verify_token_path refresh_token_path revoke_token_path
    revoke_subject_tokens_path livez_path readyz_path metrics_path modify
api_doc = record {
  paths =
      create_token_path ∷ verify_token_path ∷ refresh_token_path ∷ revoke_token_path
      ∷ revoke_subject_tokens_path ∷ livez_path ∷ readyz_path ∷ metrics_path ∷ [];
  components = modify (
      some (record {
        schemas =
            codes "TokenRequest"
            ∷ codes "TokenResponse"
            ∷ codes "ErrorResponse"
            ∷ codes "ReadinessResponse"
            ∷ codes "RefreshRequest"
            ∷ codes "RevokeGroupResponse"
            ∷ [];
        security_schemes = [];
      }));
}
