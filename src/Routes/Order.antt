-- ===== src/Routes/Order.antt =====
-- main.rs: what the order of the layers is for.
use jwt_service_app.Base.{
  ◌≡◌, ◌≢◌, refl, ap, ◌⊎◌, inl, inr, Bool, true, false, Bool-cases, some, Option-cases, List, [],
  ◌∷◌, All, if◌then◌else◌,
}
use jwt_service_app.Base.Text.{Text, codes}
use jwt_service_app.Env.{Env}
use jwt_service_app.Store.{JtiStore}
use jwt_service_app.Token.Platform.{Platform}
use jwt_service_app.Token.Signed.{KeySource}
use jwt_service_app.Auth.Config.{
  AuthLevel, proxy_secret, totp, metrics_token, AuthConfig, authorize, metrics_enabled,
}
use jwt_service_app.Auth.Replay.{admit-refused}
use jwt_service_app.RateLimit.Limiter.{Strategy}
use jwt_service_app.Routes.{
  Endpoint, cors_layer, auth_layer, limit_layer, Resource, configure_api, Cors, internal,
  metrics_resource, deny_cors,
}
use jwt_service_app.Routes.Endpoints.{Incoming, Extract, KeyProbe}
use jwt_service_app.Routes.Serve.{
  Framework, App, Service, now, wrap, wrap_all, route, chosen, serve_resource, serve,
}
use jwt_service_app.Routes.Layers.{level_of, find-All}

is_totp : AuthLevel → Bool
is_totp totp = true
is_totp _ = false

module _ (fw : Framework) (p : Platform) (env : Env) (st : JtiStore) (source : KeySource p)
    (auth : AuthConfig) (x : Extract p.JsonValue) (probe : KeyProbe p env st source) where
  open p use {JsonValue}

  abbrev Application : Type 0
  Application = App fw p env st source auth x probe

  abbrev Layered : Type 0
  Layered = Service fw p env st source auth x probe

  abbrev passes : Incoming → Application → Bool
  passes req app = authorize fw.hmac auth totp req.headers (now fw p env st source auth x probe app)

  -- A request that fails the check of TOTP leaves the buckets of the limits as they are.
  abbrev Spares : Layered → Type 0
  Spares inner =
      (req : Incoming) (app : Application)
      → (passes req app ≡ true) ⊎ ((inner req app).1.limits ≡ app.limits)

  wrap_auth-Spares :
      (inner : Layered) → Spares (wrap fw p env st source auth x probe (auth_layer totp) inner)
  unfolding wrap
  wrap_auth-Spares inner req app = elim (Bool-cases (passes req app)) [
    | inl good ↦ inl good
    | inr bad ↦ inr (
        rw (admit-refused fw.hmac auth st totp req.headers _ app.process.world.store bad, wrap)
          refl)
  ]

  wrap_cors-Spares :
      (policy : Cors) (inner : Layered)
      → Spares inner
      → Spares (wrap fw p env st source auth x probe (cors_layer policy) inner)
  unfolding wrap
  wrap_cors-Spares policy inner spares req app = elim (Option-cases (fw.cors policy req)) [
    | inl silent ↦ rw (silent, wrap) (spares req app)
    | inr (status, refused) ↦ inr (rw (refused, wrap) refl)
  ]

  abbrev SparesIfInternal : Resource → Type 0
  SparesIfInternal r =
      level_of r.endpoint ≡ totp → Spares (serve_resource fw p env st source auth x probe r)

  internal-Spares :
      (limiter : Strategy) (pattern method : Text) (e : Endpoint)
      → SparesIfInternal (internal limiter pattern method e)
  unfolding serve_resource wrap_all
  internal-Spares limiter pattern method e level =
      let limit =
        wrap fw p env st source auth x probe (limit_layer limiter)
          (route fw p env st source auth x probe (internal limiter pattern method e)) in
      wrap_cors-Spares deny_cors (wrap fw p env st source auth x probe (auth_layer totp) limit)
        (wrap_auth-Spares limit)

  not_totp : (l : AuthLevel) → is_totp l ≡ false → l ≢ totp
  unfolding is_totp
  not_totp l other e = absurd (cc (other, ap is_totp e))

  configure_api-Spares :
      (verify_limiter internal_limiter : Strategy) (cors_origins : List Text)
      → All SparesIfInternal
          (configure_api auth verify_limiter internal_limiter cors_origins).resources
  unfolding configure_api is_totp
  configure_api-Spares verify_limiter internal_limiter cors_origins =
      let spares = internal-Spares internal_limiter in
      (
        spares (codes "/tokens") (codes "POST") Endpoint.create_token,
        (
          (λ h. absurd (not_totp proxy_secret refl h)),
          (
            spares (codes "/tokens/refresh") (codes "POST") Endpoint.refresh_token,
            (
              spares (codes "/tokens/{jti}") (codes "DELETE") Endpoint.revoke_token,
              (
                spares (codes "/subjects/{sub}/tokens") (codes "DELETE")
                    Endpoint.revoke_subject_tokens,
                metrics_part (metrics_enabled auth),
              ),
            ),
          ),
        ),
      )
    where
      metrics_part :
          (enabled : Bool) → All SparesIfInternal (if enabled then metrics_resource ∷ [] else [])
      metrics_part true = ((λ h. absurd (not_totp metrics_token refl h)), tt)
      metrics_part false = tt

  -- A request to an endpoint that issues or revokes, and that fails the check of TOTP, takes nothing
  -- from the limits: without a code nobody can use up what the trusted callers may do.
  pub serve-spares_limits :
      (verify_limiter internal_limiter : Strategy) (cors_origins : List Text) (req : Incoming)
      (app : Application) (r : Resource)
      → chosen fw p env st source auth x probe
          (configure_api auth verify_limiter internal_limiter cors_origins).resources
          req
        ≡ some r
      → level_of r.endpoint ≡ totp
      → passes req app ≡ false
      → (serve fw p env st source auth x probe
          (configure_api auth verify_limiter internal_limiter cors_origins)
          req
          app).1.limits
        ≡ app.limits
  unfolding serve chosen
  serve-spares_limits verify_limiter internal_limiter cors_origins req app r there level fails =
      let api = configure_api auth verify_limiter internal_limiter cors_origins in
      elim (find-All SparesIfInternal (λ r'. fw.fits r'.pattern req.path) api.resources r
        (configure_api-Spares verify_limiter internal_limiter cors_origins) there level req app) [
          | inl good ↦ absurd (cc (good, fails))
          | inr same ↦ rw (there, serve) same
        ]
