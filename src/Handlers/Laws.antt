-- ===== src/Handlers/Laws.antt =====
-- handlers.rs and error.rs: what a caller sees of a handler's outcome.
use jwt_service_app.Base.{
  Bool-cases, inl, inr, ◌≡◌, refl, Bool, true, false, ◌&&◌, ◌||◌, some, err, if◌then◌else◌,
}
use jwt_service_app.Base.Text.{Text, codes}
use jwt_service_app.Env.{Env}
use jwt_service_app.Issuer.{is_allowed}
use jwt_service_app.Store.{JtiStore}
use jwt_service_app.Token.Platform.{Platform, TokenClaims}
use jwt_service_app.Token.Run.{World, Outcome, done, failed, panicked}
use jwt_service_app.Token.Signed.{KeySource}
use jwt_service_app.Manager.{verify_token}
use jwt_service_app.Handlers.{
  HttpError, unauthorized, text, TokenVerifyRequest, verify_handler, readyz,
}

-- `readyz` answers 200 exactly when Redis answers and the keys can be had, from the key service or
-- from the snapshot; otherwise 503.
pub readyz-ready :
    (store_ok jwks_live snapshot : Bool)
    → (readyz store_ok jwks_live snapshot).0
      ≡ (if store_ok && (jwks_live || snapshot) then 200 else 503)
unfolding readyz
readyz-ready true true s = refl
readyz-ready true false true = refl
readyz-ready true false false = refl
readyz-ready false b s = refl

module _ (p : Platform) (env : Env) (st : JtiStore) (source : KeySource p) where
  open p use {JsonValue}

  abbrev pub Here : Type 0
  Here = World st.State source.State

  abbrev pub denied : HttpError
  denied = unauthorized (codes "Invalid or expired token")

  manager_refusal :
      (request : TokenVerifyRequest) (host : Text) (w : Here)
      (o : Outcome (TokenClaims JsonValue) × Here) (e : HttpError)
      → verify_token p env st source request.token host request.audience w ≡ o
      → is_allowed env host ≡ true
      → (verify_handler p env st source request (text host) w).0 ≡ some (err e)
      → e ≡ denied
  unfolding verify_handler
  manager_refusal request host w (done claims, w') e ran allowed h =
      absurd (cc (rw (allowed, ran, verify_handler) at h))
  manager_refusal request host w (failed x, w') e ran allowed h =
      cc (rw (allowed, ran, verify_handler) at h)
  manager_refusal request host w (panicked, w') e ran allowed h =
      absurd (cc (rw (allowed, ran, verify_handler) at h))

  -- Verification does not tell why it refuses: for a request with a host, whether the issuer is not
  -- allowed or the manager refuses the token for any reason, the error is the same 401.
  verify_handler-uniform :
      (request : TokenVerifyRequest) (host : Text) (w : Here) (e : HttpError)
      → (verify_handler p env st source request (text host) w).0 ≡ some (err e)
      → e ≡ unauthorized (codes "Invalid or expired token")
  unfolding verify_handler
  verify_handler-uniform request host w e h = elim (Bool-cases (is_allowed env host)) [
    | inl allowed ↦ manager_refusal request host w _ e refl allowed h
    | inr other ↦ cc (rw (other, verify_handler) at h)
  ]
