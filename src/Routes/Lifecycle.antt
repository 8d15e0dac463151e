-- ===== src/Routes/Lifecycle.antt =====
-- main.rs with handlers.rs, jwt.rs and auth.rs: a token that is issued over the API is accepted over the
-- API.
pub mod Successes
use jwt_service_app.Base.{
  ℕ, ◌+◌, ◌≤◌, ◌<◌, ◌≡◌, refl, ap, ◌∙◌, Bool, true, false, none, some, ok, err, List,
}
use jwt_service_app.Base.Text.{Text, codes, text_eq, contains}
use jwt_service_app.Env.{Env, unwrap_or}
use jwt_service_app.Store.{JtiStore}
use jwt_service_app.Token.Serde.{ReadsBack}
use jwt_service_app.Token.Platform.{Platform, KeyPair, TokenClaims}
use jwt_service_app.Token.Claims.{expiration_seconds, add_seconds}
use jwt_service_app.Token.Headers.{supported_algorithms}
use jwt_service_app.Token.Signed.{KeySource}
use jwt_service_app.Auth.Config.{proxy_secret, totp, AuthConfig, authorize}
use jwt_service_app.Auth.Middleware.{admit, replay_claim}
use jwt_service_app.Handlers.{
  text, TokenRequest, TokenResponse, Answer, create_token, verify_handler,
}
use jwt_service_app.Handlers.Lifecycle.{verify_handler-create_token}
use jwt_service_app.RateLimit.Limiter.{Strategy, Limits, check}
use jwt_service_app.Routes.{
  Endpoint, auth_layer, limit_layer, configure_api, internal, verify_resource, verify_cors,
  deny_cors,
}
use jwt_service_app.Routes.Endpoints.{
  Incoming, Extract, Response, responded, KeyProbe, Process, issued, verified, handle, after,
}
use jwt_service_app.Routes.Serve.{
  Framework, handled, App, now, wrap, wrap_all, route, chosen, serve, serve_resource,
}
use jwt_service_app.Routes.Layers.{wrap_cors-passes, wrap_limit-passes, go_on-passes}
use jwt_service_app.Routes.Arrival.{route-handled}
use Successes.{handle_create-done, handle_verify-answers}

module _ (fw : Framework) (p : Platform) (env : Env) (st : JtiStore) (source : KeySource p)
    (auth : AuthConfig) (x : Extract p.JsonValue) (probe : KeyProbe p env st source) where
  open p use {JsonValue, PrivateKey, PublicKey}

  abbrev Application : Type 0
  Application = App fw p env st source auth x probe

  -- The process in which a handler of level 3 starts.
  abbrev entered : Incoming → Application → Process p env st source
  entered req app =
      let process = app.process in
      let w = process.world in
      record process {
        world = record w {
          store =
              (admit fw.hmac auth st totp req.headers (now fw p env st source auth x probe app)
                w.store).1;
          reads = w.reads + 1;
        };
      }

  internal-entered :
      (limiter : Strategy) (pattern method : Text) (to e : Endpoint) (req : Incoming)
      (app app' : Application) (response : Response JsonValue)
      → serve_resource fw p env st source auth x probe (internal limiter pattern method to) req app
        ≡ (handled e response, app')
      → handle p env st source x probe e req (entered req app) ≡ (response, app'.process)
  unfolding serve_resource wrap_all wrap
  internal-entered limiter pattern method to e req app app' response h =
      let routed = route fw p env st source auth x probe (internal limiter pattern method to) in
      let limited = wrap fw p env st source auth x probe (limit_layer limiter) routed in
      let checked = wrap fw p env st source auth x probe (auth_layer totp) limited in
      let h1 =
        wrap_cors-passes fw p env st source auth x probe deny_cors checked req app app' e response
          h in
      let (_, h2) =
        go_on-passes fw p env st source auth x probe totp limited req app app' e response _ h1 in
      let (l, h3) =
        wrap_limit-passes fw p env st source auth x probe limiter routed req _ app' e response h2 in
      route-handled fw p env st source auth x probe (internal limiter pattern method to) req _ app'
        e response h3

  -- The process in which the verification handler starts.
  abbrev asked : Application → Process p env st source
  asked app =
      let process = app.process in
      let w = process.world in record process { world = record w { reads = w.reads + 1 } }

  admit-permitted :
      (req : Incoming) (at' : ℕ) (s : st.State)
      → authorize fw.hmac auth proxy_secret req.headers at' ≡ true
      → admit fw.hmac auth st proxy_secret req.headers at' s ≡ (true, s)
  unfolding admit replay_claim
  admit-permitted req at' s good = rw (good, admit, replay_claim) (ap (λ (b : Bool). (b, s)) good)

  verify-reaches :
      (limiter : Strategy) (cors_origins : List Text) (req : Incoming) (app : Application)
      (l : Limits fw.governor fw.parse_ip)
      → text_eq req.method (codes "POST") ≡ true
      → fw.cors (verify_cors cors_origins) req ≡ none
      → check fw.governor fw.parse_ip limiter req.source
          (fw.instant (now fw p env st source auth x probe app))
          app.limits
        ≡ some (ok tt, l)
      → authorize fw.hmac auth proxy_secret req.headers (now fw p env st source auth x probe app)
        ≡ true
      → (serve_resource fw p env st source auth x probe
          (verify_resource limiter cors_origins)
          req
          app).0
        ≡ handled Endpoint.verify_token
            (handle p env st source x probe Endpoint.verify_token req (asked app)).0
  unfolding serve_resource wrap_all wrap route
  verify-reaches limiter cors_origins req app l method passes within permitted =
      rw
        (
          passes,
          wrap,
          within,
          admit-permitted req (now fw p env st source auth x probe app) app.process.world.store
              permitted,
          method,
        )
        refl

  -- A token that `POST /tokens` answers with, without a refresh token, is accepted by `POST
  -- /tokens/verify` in any later state of the process: through the whole application, for the same
  -- host, for each audience of the request, from the moment of issue until the token expires. The
  -- second request carries the token, passes CORS, the limit and the check of the proxy secret; the
  -- store says that the `jti` is active; and the public key of the token's `kid` belongs to the
  -- private key that signed. The answer has the claims of the first request. The algorithm that is
  -- set is a supported one, and the custom claims are a map that JSON keeps: no floating point
  -- numbers, whose digits may change.
  pub serve-created :
      (verify_limiter internal_limiter : Strategy) (cors_origins : List Text)
      (issuing verification' : Incoming) (app app1 later : Application)
      (body : TokenRequest JsonValue) (response : TokenResponse) (host one kid : Text)
      (key : PrivateKey) (public : PublicKey) (seconds exp : ℕ) (l : Limits fw.governor fw.parse_ip)
      → ReadsBack p
      → p.exact body.claims ≡ true
      → contains supported_algorithms (unwrap_or (codes "RS256") (env (codes "TOKEN_ALGORITHM")))
        ≡ true
      → chosen fw p env st source auth x probe
          (configure_api auth verify_limiter internal_limiter cors_origins).resources
          issuing
        ≡ some (internal internal_limiter (codes "/tokens") (codes "POST") Endpoint.create_token)
      → x.token_request issuing ≡ some body
      → issuing.host ≡ text host
      → body.refresh ≡ false
      → (source.get_private_key (p.clock (app.process.world.reads + 1)) app.process.world.keys).0
        ≡ some (kid, key)
      → serve fw p env st source auth x probe
          (configure_api auth verify_limiter internal_limiter cors_origins)
          issuing
          app
        ≡ (handled Endpoint.create_token (responded (ok (issued response))), app1)
      → contains body.aud one ≡ true
      → expiration_seconds p env body.ttl ≡ ok seconds
      → add_seconds p.latest p.earliest (p.clock (app.process.world.reads + 1 + 1)) seconds
        ≡ some exp
      → p.clock (app.process.world.reads + 1 + 1) ≤ p.clock (later.process.world.reads + 1 + 1)
      → p.clock (later.process.world.reads + 1 + 1) < exp
      → chosen fw p env st source auth x probe
          (configure_api auth verify_limiter internal_limiter cors_origins).resources
          verification'
        ≡ some (verify_resource verify_limiter cors_origins)
      → text_eq verification'.method (codes "POST") ≡ true
      → fw.cors (verify_cors cors_origins) verification' ≡ none
      → check fw.governor fw.parse_ip verify_limiter verification'.source
          (fw.instant (now fw p env st source auth x probe later))
          later.limits
        ≡ some (ok tt, l)
      → authorize fw.hmac auth proxy_secret verification'.headers
          (now fw p env st source auth x probe later)
        ≡ true
      → x.verify_request verification' ≡ some (record { token = response.token; audience = one })
      → verification'.host ≡ text host
      → (source.get_public_key kid
          (p.clock (later.process.world.reads + 1))
          later.process.world.keys).0
        ≡ some public
      → KeyPair p key public
      → (st.check_jti
          (p.uuid app.process.world.drawn)
          (p.clock (later.process.world.reads + 1 + 1 + 1))
          later.process.world.store).0
        ≡ ok true
      → (claims : TokenClaims JsonValue) × ((serve fw p env st source auth x probe
            (configure_api auth verify_limiter internal_limiter cors_origins)
            verification'
            later).0
          ≡ handled Endpoint.verify_token (responded (ok (verified claims))))
        × (claims.sub ≡ body.sub)
        × (claims.jti ≡ p.uuid app.process.world.drawn)
        × (claims.extra ≡ body.claims)
  unfolding serve
  serve-created verify_limiter internal_limiter cors_origins issuing verification' app app1 later
        body response host one kid key public seconds exp l law exact supported to_tokens is_body
        is_host plain has_key created asked_for lifetime expiry begun alive to_verify method passes
        within permitted is_request same_host found pair active =
      let started : Process p env st source = entered issuing app in
      let ran =
        internal-entered internal_limiter (codes "/tokens") (codes "POST") Endpoint.create_token
          Endpoint.create_token issuing app app1 (responded (ok (issued response)))
          (rw (to_tokens, serve) at created) in
      let issued_here =
        handle_create-done p env st source x probe issuing body response started app1.process
          is_body ran in
      let (claims, accepted, sub, jti, extra) =
        verify_handler-create_token p env st source body host one kid response started.world
          (asked later).world key public seconds exp law exact supported plain has_key
          (rw is_host at issued_here) asked_for lifetime expiry begun alive found pair active in
      (
        claims,
        rw (to_verify, serve)
            (verify-reaches verify_limiter cors_origins verification' later l method passes within
                permitted
              ∙ ap (handled Endpoint.verify_token) (
                  handle_verify-answers p env st source x probe verification' response.token one
                    claims (asked later) is_request (rw same_host accepted))),
        sub,
        jti,
        extra,
      )
