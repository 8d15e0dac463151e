-- ===== src/ApiDoc/Replies.antt =====
-- handlers.rs and error.rs: the statuses of the handlers' responses, against the ones that the
-- attributes of the handlers name.
use jwt_service_app.Base.{
  ℕ, ◌+◌, ◌≡◌, refl, Bool, true, false, Bool-cases, inl, inr, List, Result-cases, Option-cases,
  is_ok,
}
use jwt_service_app.Base.Text.{Text}
use jwt_service_app.Env.{Env}
use jwt_service_app.Counters.{Metric}
use jwt_service_app.Store.{JtiStore, subject_group}
use jwt_service_app.Token.Platform.{
  Platform, JwtError, unprocessable_entity, store_error, bad_signature, not_valid, broken,
  key_error, serialization, TokenClaims,
}
use jwt_service_app.Token.Run.{World, Outcome, done, failed, panicked}
use jwt_service_app.Token.Signed.{KeySource}
use jwt_service_app.Issuer.{is_allowed}
use jwt_service_app.Handlers.{
  HttpError, Header, absent, invalid, text, TokenRequest, TokenVerifyRequest, TokenResponse,
  error_response, issuer_for_issuance, host_header, create_token, verify_handler, refresh_token,
  revoke_token, revoke_subject_tokens, readyz, issue, issued_response, issue_error, refresh_error,
  verified_response,
}
use jwt_service_app.Routes.{Endpoint}
use jwt_service_app.Routes.Endpoints.{
  Incoming, Extract, issued, verified, revoked, revoked_subject, KeyProbe, Process, handle,
  ask_readiness, after,
}
use jwt_service_app.ApiDoc.{
  create_token_path, verify_token_path, refresh_token_path, revoke_token_path,
  revoke_subject_tokens_path, livez_path, readyz_path, metrics_path,
}
use jwt_service_app.ApiDoc.Statuses.{success_status, expected, HasStatus}

module _ (p : Platform) (env : Env) (st : JtiStore) (source : KeySource p) where
  open p use {JsonValue}

  abbrev Here : Type 0
  Here = World st.State source.State

  issued_response-HasStatus :
      (t : ℕ → Bool) (on_error : JwtError → HttpError)
      → t 200 ≡ true
      → ((e : JwtError) → t (error_response (on_error e)).status ≡ true)
      → (o : Outcome TokenResponse × Here) (counted : List Metric)
      → HasStatus t
          (after p env st source issued counted (issued_response p env st source on_error o)).0
  unfolding success_status
  issued_response-HasStatus t on_error good bad (done response, w) counted = good
  issued_response-HasStatus t on_error good bad (failed e, w) counted = bad e
  issued_response-HasStatus t on_error good bad (panicked, w) counted = tt

  issue_error-documented :
      (e : JwtError)
      → expected Endpoint.create_token (error_response (issue_error p env st source e)).status
        ≡ true
  unfolding create_token_path error_response
  issue_error-documented unprocessable_entity = refl
  issue_error-documented store_error = refl
  issue_error-documented bad_signature = refl
  issue_error-documented not_valid = refl
  issue_error-documented broken = refl
  issue_error-documented key_error = refl
  issue_error-documented serialization = refl

  refresh_error-documented :
      (e : JwtError)
      → expected Endpoint.refresh_token (error_response (refresh_error p env st source e)).status
        ≡ true
  unfolding refresh_token_path error_response
  refresh_error-documented unprocessable_entity = refl
  refresh_error-documented store_error = refl
  refresh_error-documented bad_signature = refl
  refresh_error-documented not_valid = refl
  refresh_error-documented broken = refl
  refresh_error-documented key_error = refl
  refresh_error-documented serialization = refl

  create_token-HasStatus :
      (b : TokenRequest JsonValue) (header : Header) (w : Here) (counted : List Metric)
      → HasStatus
          (expected Endpoint.create_token)
          (after p env st source issued counted (create_token p env st source b header w)).0
  unfolding create_token issuer_for_issuance host_header create_token_path error_response
  create_token-HasStatus b absent w counted = refl
  create_token-HasStatus b invalid w counted = refl
  create_token-HasStatus b (text host) w counted = elim (Bool-cases (is_allowed env host)) [
    | inl allowed ↦
        rw (allowed, HasStatus)
          (issued_response-HasStatus (expected Endpoint.create_token) (issue_error p env st source)
            refl issue_error-documented (issue p env st source b host w) counted)
    | inr other ↦ rw (other, HasStatus) refl
  ]

  refresh_token-HasStatus :
      (token : Text) (header : Header) (w : Here) (counted : List Metric)
      → HasStatus
          (expected Endpoint.refresh_token)
          (after p env st source issued counted (refresh_token p env st source token header w)).0
  unfolding refresh_token issuer_for_issuance host_header refresh_token_path error_response
  refresh_token-HasStatus token absent w counted = refl
  refresh_token-HasStatus token invalid w counted = refl
  refresh_token-HasStatus token (text host) w counted = elim (Bool-cases (is_allowed env host)) [
    | inl allowed ↦
        rw (allowed, HasStatus)
          (issued_response-HasStatus (expected Endpoint.refresh_token)
            (refresh_error p env st source) refl refresh_error-documented _ counted)
    | inr other ↦ rw (other, HasStatus) refl
  ]

  verified_response-HasStatus :
      (o : Outcome (TokenClaims JsonValue) × Here) (counted : List Metric)
      → HasStatus
          (expected Endpoint.verify_token)
          (after p env st source verified counted (verified_response p env st source o)).0
  unfolding verify_token_path error_response success_status
  verified_response-HasStatus (done claims, w) counted = refl
  verified_response-HasStatus (failed e, w) counted = refl
  verified_response-HasStatus (panicked, w) counted = tt

  verify_handler-HasStatus :
      (b : TokenVerifyRequest) (header : Header) (w : Here) (counted : List Metric)
      → HasStatus
          (expected Endpoint.verify_token)
          (after p env st source verified counted (verify_handler p env st source b header w)).0
  unfolding verify_handler host_header verify_token_path error_response
  verify_handler-HasStatus b absent w counted = refl
  verify_handler-HasStatus b invalid w counted = refl
  verify_handler-HasStatus b (text host) w counted = elim (Bool-cases (is_allowed env host)) [
    | inl allowed ↦ rw (allowed, HasStatus) (verified_response-HasStatus _ counted)
    | inr other ↦ rw (other, HasStatus) refl
  ]

  revoke_token-HasStatus :
      (jti : Text) (w : Here) (counted : List Metric)
      → HasStatus
          (expected Endpoint.revoke_token)
          (after p env st source (λ _. revoked) counted (revoke_token p env st source jti w)).0
  unfolding revoke_token revoke_token_path error_response success_status
  revoke_token-HasStatus jti w counted =
      elim (Result-cases (st.delete_jti jti (p.clock w.reads) w.store).0) [
        | inl (u, good) ↦ rw (good, HasStatus) refl
        | inr (e, bad) ↦ rw (bad, HasStatus) refl
      ]

  revoke_subject_tokens-HasStatus :
      (sub : Text) (w : Here) (counted : List Metric)
      → HasStatus
          (expected Endpoint.revoke_subject_tokens)
          (after p env st source revoked_subject counted
            (revoke_subject_tokens p env st source sub w)).0
  unfolding revoke_subject_tokens revoke_subject_tokens_path error_response success_status
  revoke_subject_tokens-HasStatus sub w counted =
      elim (Result-cases (st.revoke_group (subject_group sub) (p.clock w.reads) w.store).0) [
        | inl (n, good) ↦ rw (good, HasStatus) refl
        | inr (e, bad) ↦ rw (bad, HasStatus) refl
      ]

  readyz-documented :
      (store_ok jwks_live snapshot : Bool)
      → expected Endpoint.readyz (readyz store_ok jwks_live snapshot).0 ≡ true
  unfolding readyz readyz_path
  readyz-documented true true s = refl
  readyz-documented true false true = refl
  readyz-documented true false false = refl
  readyz-documented false b s = refl

  module _ (x : Extract JsonValue) (probe : KeyProbe p env st source) where
    -- Every handler answers with a status that its attribute names, but for 403 where a refresh token
    -- is exchanged.
    pub handle-HasStatus :
        (e : Endpoint) (req : Incoming) (s : Process p env st source)
        → HasStatus (expected e) (handle p env st source x probe e req s).0
    unfolding handle success_status ask_readiness metrics_path livez_path
    handle-HasStatus Endpoint.create_token req s = elim (Option-cases (x.token_request req)) [
      | inl bad ↦ rw bad tt
      | inr (b, body) ↦ rw body (create_token-HasStatus b req.host s.world s.counted)
    ]
    handle-HasStatus Endpoint.verify_token req s = elim (Option-cases (x.verify_request req)) [
      | inl bad ↦ rw bad tt
      | inr (b, body) ↦ rw body (verify_handler-HasStatus b req.host s.world s.counted)
    ]
    handle-HasStatus Endpoint.refresh_token req s = elim (Option-cases (x.refresh_request req)) [
      | inl bad ↦ rw bad tt
      | inr (b, body) ↦ rw body (refresh_token-HasStatus b req.host s.world s.counted)
    ]
    handle-HasStatus Endpoint.revoke_token req s = elim (Option-cases (x.segment req)) [
      | inl bad ↦ rw bad tt
      | inr (b, body) ↦ rw body (revoke_token-HasStatus b s.world s.counted)
    ]
    handle-HasStatus Endpoint.revoke_subject_tokens req s = elim (Option-cases (x.segment req)) [
      | inl bad ↦ rw bad tt
      | inr (b, body) ↦ rw body (revoke_subject_tokens-HasStatus b s.world s.counted)
    ]
    handle-HasStatus Endpoint.metrics req s = refl
    handle-HasStatus Endpoint.openapi_spec req s = refl
    handle-HasStatus Endpoint.livez req s = refl
    handle-HasStatus Endpoint.readyz req s =
        readyz-documented (is_ok (st.ping (p.clock s.world.reads) s.world.store).0)
          (probe (p.clock (s.world.reads + 1)) s.world.keys).0
          (probe (p.clock (s.world.reads + 1)) s.world.keys).1
