-- ===== src/Handlers.antt =====
-- error.rs and handlers.rs: the errors of the HTTP layer and the handlers. A handler gives the
-- status and the body of its response. Logging is left out, and so is the text of a response body
-- where it is fixed; the counters of metrics.rs are kept, as a list of events.
pub mod Laws
pub mod Revocation
pub mod Lifecycle
use jwt_service_app.Base.{
  ℕ, zero, suc, ◌+◌, Bool, true, false, not, ◌&&◌, ◌||◌, Option, none, some, List, [], ◌∷◌, ◌++◌,
  replicate, Result, ok, err, and_then, is_ok, if◌then◌else◌,
}
use jwt_service_app.Base.Text.{Text, codes}
use jwt_service_app.Env.{Env}
use jwt_service_app.Counters.{Metric, token_issued, token_revoked, token_verified}
use jwt_service_app.Issuer.{is_allowed}
use jwt_service_app.Store.{JtiStore, JtiError, subject_group}
use jwt_service_app.Token.Platform.{
  Platform, JwtError, unprocessable_entity, store_error, bad_signature, not_valid, broken,
  key_error, serialization, JsonMap, TokenClaims,
}
use jwt_service_app.Token.Run.{World, Run, Outcome, done, failed, panicked}
use jwt_service_app.Token.Signed.{KeySource}
use jwt_service_app.Manager.{generate_token, generate_token_pair, refresh_token_pair, verify_token}

-- `Error`, but for the variants that carry an error of a lower layer, which map alike.
pub data HttpError : Type 0 where
  validation unprocessable internal unauthorized forbidden not_found : Text → HttpError
  jwt : JwtError → HttpError
  store : JtiError → HttpError
  reqwest : HttpError

-- The body of an error.
pub record ErrorResponse : Type 0 where
  pub error : Text
  pub details : Option Text

-- `ErrorResponse::new`
abbrev pub new : Text → ErrorResponse
new error = record { error = error; details = none }

pub record HttpResponse : Type 0 where
  pub status : ℕ
  pub body : ErrorResponse

-- `error_response`
unfoldable pub error_response : HttpError → HttpResponse
error_response (validation msg) = record { status = 400; body = new msg }
error_response (unprocessable msg) = record { status = 422; body = new msg }
error_response (unauthorized msg) = record { status = 401; body = new msg }
error_response (forbidden msg) = record { status = 403; body = new msg }
error_response (not_found msg) = record { status = 404; body = new msg }
error_response _ = record { status = 500; body = new (codes "Internal server error") }

-- The text of a `JwtError`.
unfoldable pub describe : JwtError → Text
describe unprocessable_entity = codes "Unprocessable entity"
describe store_error = codes "Store error"
describe bad_signature = codes "Bad signature"
describe not_valid = codes "Not valid"
describe broken = codes "Broken"
describe key_error = codes "Key error"
describe serialization = codes "Serialization failed"

-- A header of a request: absent, not visible ASCII, or a text.
pub data Header : Type 0 where
  absent invalid : Header
  text : Text → Header

unfoldable pub host_header : Header → Result HttpError Text
host_header absent = err (validation (codes "Missing Host header"))
host_header invalid = err (validation (codes "Invalid Host header"))
host_header (text host) = ok host

unfoldable pub issuer_for_issuance : Env → Header → Result HttpError Text
unfolding host_header
issuer_for_issuance env header =
    and_then (host_header header) (λ host.
      if is_allowed env host then ok host else err (forbidden (codes "Issuer not allowed")))

pub record TokenRequest (V : Type 0) : Type 0 where
  pub sub : Text
  pub aud : List Text
  pub ttl : Option ℕ
  pub refresh : Bool
  pub claims : JsonMap V

pub record TokenVerifyRequest : Type 0 where
  pub token : Text
  pub audience : Text

pub record TokenResponse : Type 0 where
  pub token : Text
  pub refresh_token : Option Text

-- What a handler leaves: its response (none if it panicked), the state, and the events counted.
abbrev pub Answer : Type 0 → Type 0 → Type 0 → Type 0
Answer S K A = Option (Result HttpError A) × World S K × List Metric

module _ (p : Platform) (env : Env) (st : JtiStore) (source : KeySource p) where
  open p use {JsonValue}

  abbrev pub Handled : Type 0 → Type 0
  Handled A = Answer st.State source.State A

  abbrev pub Here : Type 0
  Here = World st.State source.State

  abbrev pub issued_response :
      (JwtError → HttpError) → Outcome TokenResponse × Here → Handled TokenResponse
  issued_response on_error (done response, w) = (some (ok response), w, token_issued ∷ [])
  issued_response on_error (failed e, w) = (some (err (on_error e)), w, [])
  issued_response on_error (panicked, w) = (none, w, [])

  abbrev with_refresh : Outcome (Text × Text) × Here → Outcome TokenResponse × Here
  with_refresh (done (token, refresh), w) =
      (done (record { token = token; refresh_token = some refresh }), w)
  with_refresh (failed e, w) = (failed e, w)
  with_refresh (panicked, w) = (panicked, w)

  abbrev pub without_refresh : Outcome Text × Here → Outcome TokenResponse × Here
  without_refresh (done token, w) = (done (record { token = token; refresh_token = none }), w)
  without_refresh (failed e, w) = (failed e, w)
  without_refresh (panicked, w) = (panicked, w)

  abbrev pub issue_error : JwtError → HttpError
  issue_error unprocessable_entity = unprocessable (codes "Invalid token request parameters")
  issue_error e = internal (describe e)

  unfoldable pub issue : TokenRequest JsonValue → Text → Here → Outcome TokenResponse × Here
  unfolding generate_token_pair generate_token
  issue req host w =
      if req.refresh
      then with_refresh
          (generate_token_pair p env st source host req.sub req.aud req.ttl req.claims w)
      else without_refresh
          (generate_token p env st source host req.sub req.aud req.ttl req.claims w)

  unfoldable pub create_token : TokenRequest JsonValue → Header → Here → Handled TokenResponse
  unfolding issue issuer_for_issuance
  create_token req header w = elim (issuer_for_issuance env header) [
    | err e ↦ (some (err e), w, [])
    | ok host ↦ issued_response issue_error (issue req host w)
  ]

  abbrev denied : HttpError
  denied = unauthorized (codes "Invalid or expired token")

  abbrev pub verified_response :
      Outcome (TokenClaims JsonValue) × Here → Handled (TokenClaims JsonValue)
  verified_response (done claims, w) = (some (ok claims), w, token_verified true ∷ [])
  verified_response (failed e, w) = (some (err denied), w, token_verified false ∷ [])
  verified_response (panicked, w) = (none, w, [])

  unfoldable pub verify_handler :
      TokenVerifyRequest → Header → Here → Handled (TokenClaims JsonValue)
  unfolding verify_token host_header
  verify_handler request header w = elim (host_header header) [
    | err e ↦ (some (err e), w, [])
    | ok host ↦
        if is_allowed env host
        then verified_response (verify_token p env st source request.token host request.audience w)
        else (some (err denied), w, [])
  ]

  abbrev after_store : Here → st.State → Here
  after_store w s = record w { store = s; reads = w.reads + 1 }

  unfoldable pub revoke_token : Text → Here → Handled (Unit {0})
  revoke_token jti w =
      let (r, s) = st.delete_jti jti (p.clock w.reads) w.store in
      elim r [
        | ok _ ↦ (some (ok tt), after_store w s, token_revoked ∷ [])
        | err e ↦ (some (err (internal (codes "Failed to revoke token"))), after_store w s, [])
      ]

  unfoldable pub revoke_subject_tokens : Text → Here → Handled ℕ
  revoke_subject_tokens sub w =
      let (r, s) = st.revoke_group (subject_group sub) (p.clock w.reads) w.store in
      elim r [
        | ok revoked ↦ (some (ok revoked), after_store w s, replicate revoked token_revoked)
        | err e ↦
            (some (err (internal (codes "Failed to revoke subject tokens"))), after_store w s, [])
      ]

  abbrev pub refresh_error : JwtError → HttpError
  refresh_error not_valid = unauthorized (codes "Invalid refresh token")
  refresh_error e = internal (describe e)

  unfoldable pub refresh_token : Text → Header → Here → Handled TokenResponse
  unfolding refresh_token_pair issuer_for_issuance
  refresh_token token header w = elim (issuer_for_issuance env header) [
    | err e ↦ (some (err e), w, [])
    | ok host ↦
        issued_response refresh_error
          (with_refresh (refresh_token_pair p env st source token host w))
  ]

-- `GET /readyz`: what the probe reports, from the ping of the store, the live request to the key
-- service and the snapshot in memory.
pub record ReadinessResponse : Type 0 where
  pub status : Text
  pub redis : Bool
  pub jwks : Bool
  pub jwks_stale : Bool

abbrev readiness_status : Bool → Bool → Text
readiness_status false _ = codes "unavailable"
readiness_status true true = codes "degraded"
readiness_status true false = codes "ok"

unfoldable pub readyz : Bool → Bool → Bool → ℕ × ReadinessResponse
readyz store_ok jwks_live has_servable_snapshot =
    let jwks_stale = not jwks_live && has_servable_snapshot in
    let jwks_ok = jwks_live || jwks_stale in
    let ready = store_ok && jwks_ok in
    (
      (if ready then 200 else 503),
      record {
        status = readiness_status ready jwks_stale;
        redis = store_ok;
        jwks = jwks_ok;
        jwks_stale = jwks_stale;
      },
    )
