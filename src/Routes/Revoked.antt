-- ===== src/Routes/Revoked.antt =====
-- main.rs with handlers.rs, auth.rs and redis.rs: a token that is revoked over the API is not accepted
-- over the API.
use jwt_service_app.Base.{
  ◌≡◌, ◌≢◌, refl, sym, ap, ◌∙◌, subst, true, Bool-cases, inl, inr, none, some, Option-cases, ok,
  err, List,
}
use jwt_service_app.Base.Text.{Text}
use jwt_service_app.Env.{Env}
use jwt_service_app.Issuer.{is_allowed}
use jwt_service_app.Store.{JtiStore}
use jwt_service_app.Token.Platform.{Platform, TokenClaims, TokenHeaders}
use jwt_service_app.Token.Run.{World, Outcome, done, failed, panicked, pure}
use jwt_service_app.Token.Signed.{KeySource, from_string}
use jwt_service_app.Token.Inversion.{Ends, >>=-Ends}
use jwt_service_app.Auth.Config.{AuthConfig}
use jwt_service_app.Manager.{verify_token}
use jwt_service_app.Redis.{AudienceJson, redis_store}
use jwt_service_app.Redis.Server.{RedisServer}
use jwt_service_app.Handlers.{
  Header, absent, invalid, text, TokenVerifyRequest, Answer, verify_handler, revoke_token,
}
use jwt_service_app.Handlers.Revocation.{revoke_token-rejects}
use jwt_service_app.RateLimit.Limiter.{Strategy}
use jwt_service_app.Routes.{Endpoint, configure_api}
use jwt_service_app.Routes.Endpoints.{
  Incoming, Extract, responded, KeyProbe, Process, verified, revoked, handle, after,
}
use jwt_service_app.Routes.Serve.{Framework, Reply, handled, App, serve}
use jwt_service_app.Routes.Arrival.{serve-handled}
use jwt_service_app.Routes.Quiet.{serve-handled_same}

module _ (p : Platform) (env : Env) (st : JtiStore) (source : KeySource p) where
  open p use {JsonValue}

  abbrev Here : Type 0
  Here = World st.State source.State

  manager_done :
      (token host audience : Text) (w w' : Here) (claims : TokenClaims JsonValue)
      → Ends (verify_token p env st source token host audience) w claims w'
      → (headers : TokenHeaders) × (w1 : Here) × Ends
          (from_string p env st source token host audience)
          w
          (headers, claims)
          w1
  unfolding verify_token
  manager_done token host audience w w' claims h =
      let ((headers, c), w1, ran, left) =
        >>=-Ends (from_string p env st source token host audience) (λ result. pure result.1) h in
      let same : c ≡ claims = cc left in
      (
        headers,
        w1,
        subst (λ c'. Ends (from_string p env st source token host audience) w (headers, c') w1) same
            ran,
      )

  -- Claims that the handler returns are claims that verification came to.
  pub verify_handler-Ends :
      (request : TokenVerifyRequest) (header : Header) (w : Here) (claims : TokenClaims JsonValue)
      → (verify_handler p env st source request header w).0 ≡ some (ok claims)
      → (host : Text) × (headers : TokenHeaders) × (w1 : Here) × Ends
          (from_string p env st source request.token host request.audience)
          w
          (headers, claims)
          w1
  unfolding verify_handler
  verify_handler-Ends request absent w claims h = absurd (cc h)
  verify_handler-Ends request invalid w claims h = absurd (cc h)
  verify_handler-Ends request (text host) w claims h = elim (Bool-cases (is_allowed env host)) [
    | inr other ↦ absurd (cc (rw (other, verify_handler) at h))
    | inl allowed ↦
        go allowed (verify_token p env st source request.token host request.audience w) refl
  ]
    where
      go :
          is_allowed env host ≡ true
          → (o : Outcome (TokenClaims JsonValue) × Here)
          → verify_token p env st source request.token host request.audience w ≡ o
          → (host' : Text) × (headers : TokenHeaders) × (w1 : Here) × Ends
              (from_string p env st source request.token host' request.audience)
              w
              (headers, claims)
              w1
      go allowed' (done c, w1) ran =
          let same : c ≡ claims = cc (rw (allowed', ran, verify_handler) at h) in
          let (headers, w2, ended) =
            manager_done request.token host request.audience w w1 claims
              (ran ∙ ap (λ c'. (done c', w1)) same) in
          (host, headers, w2, ended)
      go allowed' (failed e, w1) ran = absurd (cc (rw (allowed', ran, verify_handler) at h))
      go allowed' (panicked, w1) ran = absurd (cc (rw (allowed', ran, verify_handler) at h))

  -- Claims in the answer of the verification endpoint are claims that verification came to.
  handle_verify-Ends :
      (x : Extract JsonValue) (probe : KeyProbe p env st source) (req : Incoming)
      (s s' : Process p env st source) (claims : TokenClaims JsonValue)
      → handle p env st source x probe Endpoint.verify_token req s
        ≡ (responded (ok (verified claims)), s')
      → (token : Text) × (host : Text) × (audience : Text) × (headers : TokenHeaders) × (w1 : Here)
        × Ends (from_string p env st source token host audience) s.world (headers, claims) w1
  unfolding handle
  handle_verify-Ends x probe req s s' claims h = elim (Option-cases (x.verify_request req)) [
    | inl unfit ↦ absurd (cc (rw (unfit, handle) at h))
    | inr (request, fits) ↦
        go request (verify_handler p env st source request req.host s.world) refl
          (rw (fits, handle) at h)
  ]
    where
      go :
          (request : TokenVerifyRequest)
          → (answer : Answer st.State source.State (TokenClaims JsonValue))
          → verify_handler p env st source request req.host s.world ≡ answer
          → after p env st source verified s.counted answer ≡ (responded (ok (verified claims)), s')
          → (token : Text) × (host : Text) × (audience : Text) × (headers : TokenHeaders)
            × (w1 : Here) × Ends
                (from_string p env st source token host audience)
                s.world
                (headers, claims)
                w1
      go request (none, w, events) is_answer e = absurd (cc e)
      go request (some (err x'), w, events) is_answer e = absurd (cc e)
      go request (some (ok c), w, events) is_answer e =
          let same : c ≡ claims = cc e in
          let (host, headers, w1, ended) =
            verify_handler-Ends request req.host s.world claims
              (ap (λ a. a.0) is_answer ∙ ap (λ c'. some (ok c')) same) in
          (request.token, host, request.audience, headers, w1, ended)

  -- A success of the revocation endpoint is one of the handler.
  handle_revoke-done :
      (x : Extract JsonValue) (probe : KeyProbe p env st source) (req : Incoming) (jti : Text)
      (s s' : Process p env st source)
      → x.segment req ≡ some jti
      → handle p env st source x probe Endpoint.revoke_token req s ≡ (responded (ok revoked), s')
      → ((revoke_token p env st source jti s.world).0 ≡ some (ok tt))
        × ((revoke_token p env st source jti s.world).1 ≡ s'.world)
  unfolding handle
  handle_revoke-done x probe req jti s s' fits h =
      go (revoke_token p env st source jti s.world) refl (rw (fits, handle) at h)
    where
      go :
          (answer : Answer st.State source.State (Unit {0}))
          → revoke_token p env st source jti s.world ≡ answer
          → after p env st source (λ _. revoked) s.counted answer ≡ (responded (ok revoked), s')
          → ((revoke_token p env st source jti s.world).0 ≡ some (ok tt))
            × ((revoke_token p env st source jti s.world).1 ≡ s'.world)
      go (none, w, events) is_answer e = absurd (cc e)
      go (some (err x'), w, events) is_answer e = absurd (cc e)
      go (some (ok u), w, events) is_answer e =
          (ap (λ a. a.0) is_answer, ap (λ a. a.1) is_answer ∙ ap (λ q. q.1.world) e)

module _ (fw : Framework) (p : Platform) (env : Env) (r : RedisServer) (json : AudienceJson)
    (source : KeySource p) (auth : AuthConfig) (x : Extract p.JsonValue)
    (probe : KeyProbe p env (redis_store r json) source) where
  open p use {JsonValue}

  abbrev Application : Type 0
  Application = App fw p env (redis_store r json) source auth x probe

  abbrev answers :
      Strategy → Strategy → List Text → Incoming → Application → Reply JsonValue × Application
  answers verify_limiter internal_limiter cors_origins =
      serve fw p env (redis_store r json) source auth x probe
        (configure_api auth verify_limiter internal_limiter cors_origins)

  -- After `DELETE /tokens/{jti}` has answered with success, `POST /tokens/verify` never answers with
  -- the claims of a token with that `jti`, as long as nothing has written to the store in between:
  -- through the whole application, whatever the token, the headers and the limits are.
  pub serve-revoked :
      (verify_limiter internal_limiter : Strategy) (cors_origins : List Text)
      (revocation verification' : Incoming) (app app1 later app2 : Application) (jti : Text)
      (claims : TokenClaims JsonValue)
      → x.segment revocation ≡ some jti
      → answers verify_limiter internal_limiter cors_origins revocation app
        ≡ (handled Endpoint.revoke_token (responded (ok revoked)), app1)
      → later.process.world.store ≡ app1.process.world.store
      → answers verify_limiter internal_limiter cors_origins verification' later
        ≡ (handled Endpoint.verify_token (responded (ok (verified claims))), app2)
      → claims.jti ≢ jti
  serve-revoked verify_limiter internal_limiter cors_origins revocation verification' app app1 later
        app2 jti claims segment deleted untouched accepted =
      let st : JtiStore = redis_store r json in
      let api = configure_api auth verify_limiter internal_limiter cors_origins in
      let (mid, ran) =
        serve-handled fw p env st source auth x probe api revocation app app1 Endpoint.revoke_token
          (responded (ok revoked)) deleted in
      let (answered, left) =
        handle_revoke-done p env st source x probe revocation jti mid.process app1.process segment
          ran in
      let (mid', ran', same) =
        serve-handled_same fw p env st source auth x probe verify_limiter internal_limiter
          cors_origins verification' later app2 Endpoint.verify_token
          (responded (ok (verified claims))) refl accepted in
      let (token, host, audience, headers, w1, ended) =
        handle_verify-Ends p env st source x probe verification' mid'.process app2.process claims
          ran' in
      revoke_token-rejects p env r json source jti token host audience mid.process.world
        mid'.process.world w1 headers claims answered
        (same ∙ (untouched ∙ ap (λ w. w.store) (sym left))) ended
