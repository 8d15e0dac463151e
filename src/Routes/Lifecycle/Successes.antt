-- ===== src/Routes/Lifecycle/Successes.antt =====
-- main.rs with handlers.rs: a success of an endpoint, against that of its handler.
use jwt_service_app.Base.{◌≡◌, refl, ap, ◌∙◌, none, some, ok, err}
use jwt_service_app.Base.Text.{Text}
use jwt_service_app.Env.{Env}
use jwt_service_app.Store.{JtiStore}
use jwt_service_app.Token.Platform.{Platform, TokenClaims}
use jwt_service_app.Token.Signed.{KeySource}
use jwt_service_app.Handlers.{TokenRequest, TokenResponse, Answer, create_token, verify_handler}
use jwt_service_app.Routes.{Endpoint}
use jwt_service_app.Routes.Endpoints.{
  Incoming, Extract, responded, KeyProbe, Process, issued, verified, handle, after,
}

module _ (p : Platform) (env : Env) (st : JtiStore) (source : KeySource p) (x : Extract p.JsonValue)
    (probe : KeyProbe p env st source) where
  open p use {JsonValue}

  -- A success of the issuing endpoint is one of the handler.
  pub handle_create-done :
      (req : Incoming) (body : TokenRequest JsonValue) (response : TokenResponse)
      (s s' : Process p env st source)
      → x.token_request req ≡ some body
      → handle p env st source x probe Endpoint.create_token req s
        ≡ (responded (ok (issued response)), s')
      → (create_token p env st source body req.host s.world).0 ≡ some (ok response)
  unfolding handle
  handle_create-done req body response s s' fits h =
      go (create_token p env st source body req.host s.world) refl (rw (fits, handle) at h)
    where
      go :
          (answer : Answer st.State source.State TokenResponse)
          → create_token p env st source body req.host s.world ≡ answer
          → after p env st source issued s.counted answer ≡ (responded (ok (issued response)), s')
          → (create_token p env st source body req.host s.world).0 ≡ some (ok response)
      go (none, w, events) is_answer e = absurd (cc e)
      go (some (err x'), w, events) is_answer e = absurd (cc e)
      go (some (ok r), w, events) is_answer e =
          let same : r ≡ response = cc e in ap (λ a. a.0) is_answer ∙ ap (λ r'. some (ok r')) same

  -- A success of the verification handler is one of the endpoint.
  pub handle_verify-answers :
      (req : Incoming) (token one : Text) (claims : TokenClaims JsonValue)
      (s : Process p env st source)
      → x.verify_request req ≡ some (record { token = token; audience = one })
      → (verify_handler p env st source
          (record { token = token; audience = one })
          req.host
          s.world).0
        ≡ some (ok claims)
      → (handle p env st source x probe Endpoint.verify_token req s).0
        ≡ responded (ok (verified claims))
  unfolding handle
  handle_verify-answers req token one claims s fits answered = rw (fits, handle, answered) refl
