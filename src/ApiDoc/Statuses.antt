-- ===== src/ApiDoc/Statuses.antt =====
-- handlers.rs and error.rs: the status of a response, and the statuses that the attribute of a handler
-- names.
use jwt_service_app.Base.{
  ℕ, ◌==◌, ◌≡◌, Bool, true, Option, none, some, List, [], ◌∷◌, ◌++◌, map, any, ok, err,
}
use jwt_service_app.Handlers.{error_response}
use jwt_service_app.Routes.{Endpoint}
use jwt_service_app.Routes.Endpoints.{
  Body, issued, verified, revoked, revoked_subject, readiness, page, Response, bad_input, crashed,
  responded,
}
use jwt_service_app.ApiDoc.{
  DocumentedReply, Operation, create_token_path, verify_token_path, refresh_token_path,
  revoke_token_path, revoke_subject_tokens_path, livez_path, readyz_path, metrics_path,
}

-- The status of a success.
unfoldable pub success_status : {V : Type 0} → Body V → ℕ
success_status (issued response) = 200
success_status (verified claims) = 200
success_status revoked = 204
success_status (revoked_subject n) = 200
success_status (readiness status body) = status
success_status (page t) = 200

-- What the attribute of a handler says; the description itself has none.
abbrev pub operation_of : Endpoint → Option Operation
operation_of Endpoint.create_token = some create_token_path
operation_of Endpoint.verify_token = some verify_token_path
operation_of Endpoint.refresh_token = some refresh_token_path
operation_of Endpoint.revoke_token = some revoke_token_path
operation_of Endpoint.revoke_subject_tokens = some revoke_subject_tokens_path
operation_of Endpoint.metrics = some metrics_path
operation_of Endpoint.livez = some livez_path
operation_of Endpoint.readyz = some readyz_path
operation_of Endpoint.openapi_spec = none

abbrev pub contains : List ℕ → ℕ → Bool
contains statuses n = any (λ m. m == n) statuses

abbrev pub documented_statuses : Option Operation → List ℕ
documented_statuses none = []
documented_statuses (some op) = map (λ (r : DocumentedReply). r.0) op.responses

-- The statuses that are answered and not documented.
abbrev pub missing : Endpoint → List ℕ
missing Endpoint.refresh_token = 403 ∷ []
missing Endpoint.metrics = 401 ∷ []
missing Endpoint.openapi_spec = 200 ∷ []
missing _ = []

abbrev pub expected : Endpoint → ℕ → Bool
expected e = contains (documented_statuses (operation_of e) ++ missing e)

-- A response has a status of some kind. Input that does not fit is answered by actix-web, a panic by
-- nobody.
abbrev pub HasStatus : {V : Type 0} → (ℕ → Bool) → Response V → Type 0
HasStatus t bad_input = Unit
HasStatus t crashed = Unit
HasStatus t (responded (ok body)) = t (success_status body) ≡ true
HasStatus t (responded (err e)) = t (error_response e).status ≡ true

-- The status of a response, if the code gives it one: what actix-web or actix-cors answers by itself has
-- none here, and neither has a panic.
abbrev pub response_status : {V : Type 0} → Response V → Option ℕ
response_status bad_input = none
response_status crashed = none
response_status (responded (ok body)) = some (success_status body)
response_status (responded (err e)) = some (error_response e).status
