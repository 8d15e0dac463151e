-- ===== src/Routes/Levels.antt =====
-- main.rs: which requests reach a handler.
use jwt_service_app.Base.{
  ◌≡◌, refl, sym, ap, ◌∙◌, subst, Bool, true, false, inl, inr, Option-cases, List, [], ◌∷◌, All,
  if◌then◌else◌,
}
use jwt_service_app.Base.Text.{Text, codes}
use jwt_service_app.Env.{Env}
use jwt_service_app.Store.{JtiStore}
use jwt_service_app.Token.Platform.{Platform}
use jwt_service_app.Token.Signed.{KeySource}
use jwt_service_app.Auth.Config.{
  open_level, proxy_secret, totp, AuthConfig, authorize, metrics_enabled,
}
use jwt_service_app.RateLimit.Limiter.{Strategy}
use jwt_service_app.Routes.{
  Endpoint, cors_layer, auth_layer, limit_layer, Resource, configure_api, plain_wraps,
  internal_wraps, verify_resource, metrics_resource, internal, deny_cors,
}
use jwt_service_app.Routes.Endpoints.{Incoming, Extract, Response, KeyProbe}
use jwt_service_app.Routes.Serve.{
  Framework, handled, App, Service, now, wrap_all, route, chosen, serve_resource, serve_routes,
  serve,
}
use jwt_service_app.Routes.Layers.{
  level_of, find-All, IsGuarded, LeadsTo, Reaches, IsSafe, around, wrap_auth-IsGuarded,
  wrap_cors-IsGuarded, wrap_limit-IsGuarded, wrap_all-Reaches, route-LeadsTo, IsGuarded-IsSafe,
}

module _ (fw : Framework) (p : Platform) (env : Env) (st : JtiStore) (source : KeySource p)
    (auth : AuthConfig) (x : Extract p.JsonValue) (probe : KeyProbe p env st source) where
  open p use {JsonValue}

  abbrev Application : Type 0
  Application = App fw p env st source auth x probe

  abbrev Layered : Type 0
  Layered = Service fw p env st source auth x probe

  internal_wraps-IsSafe :
      (to : Endpoint) (strategy : Strategy) (inner : Layered)
      → level_of to ≡ totp
      → LeadsTo fw p env st source auth x probe to inner
      → IsSafe fw p env st source auth x probe
          (wrap_all fw p env st source auth x probe (internal_wraps strategy) inner)
  unfolding wrap_all
  internal_wraps-IsSafe to strategy inner level leads =
      let limit = around fw p env st source auth x probe (limit_layer strategy) inner in
      IsGuarded-IsSafe fw p env st source auth x probe to _
        (subst
          (λ l. IsGuarded fw p env st source auth x probe l (
            around fw p env st source auth x probe (cors_layer deny_cors)
              (around fw p env st source auth x probe (auth_layer totp) limit)))
          (sym level)
          (wrap_cors-IsGuarded fw p env st source auth x probe totp deny_cors
            (around fw p env st source auth x probe (auth_layer totp) limit)
            (wrap_auth-IsGuarded fw p env st source auth x probe totp limit)))
        (wrap_all-Reaches fw p env st source auth x probe (λ e. e ≡ to) (internal_wraps strategy)
          inner leads)

  plain_wraps-IsSafe :
      (to : Endpoint) (inner : Layered)
      → LeadsTo fw p env st source auth x probe to inner
      → IsSafe fw p env st source auth x probe
          (wrap_all fw p env st source auth x probe (plain_wraps (level_of to)) inner)
  unfolding wrap_all
  plain_wraps-IsSafe to inner leads =
      IsGuarded-IsSafe fw p env st source auth x probe to _
        (wrap_cors-IsGuarded fw p env st source auth x probe (level_of to) deny_cors _
          (wrap_auth-IsGuarded fw p env st source auth x probe (level_of to) inner))
        (wrap_all-Reaches fw p env st source auth x probe (λ e. e ≡ to) (plain_wraps (level_of to))
          inner leads)

  verify_resource-IsSafe :
      (strategy : Strategy) (cors_origins : List Text)
      → IsSafe fw p env st source auth x probe
          (serve_resource fw p env st source auth x probe (verify_resource strategy cors_origins))
  unfolding serve_resource wrap_all
  verify_resource-IsSafe strategy cors_origins =
      let r = verify_resource strategy cors_origins in
      IsGuarded-IsSafe fw p env st source auth x probe Endpoint.verify_token _
        (wrap_cors-IsGuarded fw p env st source auth x probe proxy_secret _ _ (
          wrap_limit-IsGuarded fw p env st source auth x probe proxy_secret strategy _ (
            wrap_auth-IsGuarded fw p env st source auth x probe proxy_secret
              (route fw p env st source auth x probe r))))
        (wrap_all-Reaches fw p env st source auth x probe (λ e. e ≡ Endpoint.verify_token) r.wraps _
          (route-LeadsTo fw p env st source auth x probe r))

  abbrev pub IsSafeResource : Resource → Type 0
  IsSafeResource r =
      IsSafe fw p env st source auth x probe (serve_resource fw p env st source auth x probe r)

  metrics_resource-IsSafe :
      (enabled : Bool) → All IsSafeResource (if enabled then metrics_resource ∷ [] else [])
  unfolding serve_resource
  metrics_resource-IsSafe true = (
    plain_wraps-IsSafe Endpoint.metrics _
        (route-LeadsTo fw p env st source auth x probe metrics_resource),
    tt,
  )
  metrics_resource-IsSafe false = tt

  configure_api-IsSafe :
      (verify_limiter internal_limiter : Strategy) (cors_origins : List Text)
      → All IsSafeResource
          (configure_api auth verify_limiter internal_limiter cors_origins).resources
  unfolding configure_api serve_resource
  configure_api-IsSafe verify_limiter internal_limiter cors_origins =
      let internal_IsSafe : (to : Endpoint)
          → (pattern method : Text) → level_of to ≡ totp
          → IsSafeResource (internal internal_limiter pattern method to) =
        λ to pattern method level. internal_wraps-IsSafe to internal_limiter _ level (
          route-LeadsTo fw p env st source auth x probe
            (internal internal_limiter pattern method to)) in
      (
        internal_IsSafe Endpoint.create_token (codes "/tokens") (codes "POST") refl,
        (
          verify_resource-IsSafe verify_limiter cors_origins,
          (
            internal_IsSafe Endpoint.refresh_token (codes "/tokens/refresh") (codes "POST") refl,
            (
              internal_IsSafe Endpoint.revoke_token (codes "/tokens/{jti}") (codes "DELETE") refl,
              (
                internal_IsSafe Endpoint.revoke_subject_tokens (codes "/subjects/{sub}/tokens")
                    (codes "DELETE") refl,
                metrics_resource-IsSafe (metrics_enabled auth),
              ),
            ),
          ),
        ),
      )

  abbrev IsOpen : Endpoint → Type 0
  IsOpen e = level_of e ≡ open_level

  serve_routes-IsOpen :
      (routes : List Resource)
      → All (λ r. IsOpen r.endpoint) routes
      → Reaches fw p env st source auth x probe IsOpen
          (serve_routes fw p env st source auth x probe routes)
  unfolding serve_routes chosen
  serve_routes-IsOpen routes open_routes req app app' e response h =
      elim (Option-cases (chosen fw p env st source auth x probe routes req)) [
        | inl nowhere ↦ absurd (cc (rw (nowhere, serve_routes) at h))
        | inr (r, there) ↦
            ap level_of (
              route-LeadsTo fw p env st source auth x probe r req app app' e response
                (rw (there, serve_routes) at h))
            ∙ find-All (λ r'. IsOpen r'.endpoint) _ routes r open_routes there
      ]

  -- A handler runs only for a request that has passed the check of the handler's own level, at the
  -- moment of the request: TOTP to issue, to refresh and to revoke, the proxy secret to verify, the
  -- metrics token for the metrics. This holds whatever the limits, the origins and the paths are.
  pub serve-authorized :
      (verify_limiter internal_limiter : Strategy) (cors_origins : List Text) (req : Incoming)
      (app app' : Application) (e : Endpoint) (response : Response JsonValue)
      → serve fw p env st source auth x probe
          (configure_api auth verify_limiter internal_limiter cors_origins)
          req
          app
        ≡ (handled e response, app')
      → authorize fw.hmac auth (level_of e) req.headers (now fw p env st source auth x probe app)
        ≡ true
  unfolding serve chosen configure_api authorize
  serve-authorized verify_limiter internal_limiter cors_origins req app app' e response h =
      let api = configure_api auth verify_limiter internal_limiter cors_origins in
      elim (Option-cases (chosen fw p env st source auth x probe api.resources req)) [
        | inr (r, there) ↦
            find-All IsSafeResource (λ r'. fw.fits r'.pattern req.path) api.resources r
              (configure_api-IsSafe verify_limiter internal_limiter cors_origins) there req app app'
              e response (rw (there, serve) at h)
        | inl nowhere ↦
            let is_open : IsOpen e =
              wrap_all-Reaches fw p env st source auth x probe IsOpen (plain_wraps open_level) _
                (serve_routes-IsOpen api.scope_routes (refl, (refl, (refl, tt)))) req app app' e
                response (rw (nowhere, serve) at h) in
            ap (λ l. authorize fw.hmac auth l req.headers (now fw p env st source auth x probe app))
              is_open
      ]
