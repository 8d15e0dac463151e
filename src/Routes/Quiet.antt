-- ===== src/Routes/Quiet.antt =====
-- main.rs: the layers of an endpoint without TOTP ask nothing of the store.
use jwt_service_app.Base.{
  ◌≡◌, refl, subst, Bool, true, false, inl, inr, Option-cases, List, [], ◌∷◌, All, if◌then◌else◌,
}
use jwt_service_app.Base.Text.{Text}
use jwt_service_app.Env.{Env}
use jwt_service_app.Store.{JtiStore}
use jwt_service_app.Token.Platform.{Platform}
use jwt_service_app.Token.Signed.{KeySource}
use jwt_service_app.Auth.Config.{AuthConfig, metrics_enabled}
use jwt_service_app.Auth.Middleware.{is_totp}
use jwt_service_app.RateLimit.Limiter.{Strategy}
use jwt_service_app.Routes.{Endpoint, Resource, configure_api, metrics_resource}
use jwt_service_app.Routes.Endpoints.{Incoming, Extract, Response, KeyProbe, handle}
use jwt_service_app.Routes.Serve.{
  Framework, handled, App, route, chosen, serve_resource, serve_routes, serve,
}
use jwt_service_app.Routes.Layers.{level_of, find-All, route-LeadsTo, wrap_all-Reaches}
use jwt_service_app.Routes.Arrival.{
  store_of, AsksNothing, wrap_all-ArrivesSame, route-handled, serve_routes-handled,
}

module _ (fw : Framework) (p : Platform) (env : Env) (st : JtiStore) (source : KeySource p)
    (auth : AuthConfig) (x : Extract p.JsonValue) (probe : KeyProbe p env st source) where
  open p use {JsonValue}

  abbrev Application : Type 0
  Application = App fw p env st source auth x probe

  abbrev QuietUnlessTotp : Resource → Type 0
  QuietUnlessTotp r =
      is_totp (level_of r.endpoint) ≡ false
      → All (AsksNothing fw p env st source auth x probe) r.wraps

  configure_api-Quiet :
      (verify_limiter internal_limiter : Strategy) (cors_origins : List Text)
      → All QuietUnlessTotp
          (configure_api auth verify_limiter internal_limiter cors_origins).resources
  unfolding configure_api
  configure_api-Quiet verify_limiter internal_limiter cors_origins = (
    (λ h. absurd (cc h)),
    (
      (λ h. (refl, (tt, (tt, tt)))),
      (
        (λ h. absurd (cc h)),
        ((λ h. absurd (cc h)), ((λ h. absurd (cc h)), metrics_part (metrics_enabled auth))),
      ),
    ),
  )
    where
      metrics_part :
          (enabled : Bool) → All QuietUnlessTotp (if enabled then metrics_resource ∷ [] else [])
      metrics_part true = ((λ h. (refl, (tt, tt))), tt)
      metrics_part false = tt

  -- The handler of an endpoint without TOTP finds the store as the request found it.
  pub serve-handled_same :
      (verify_limiter internal_limiter : Strategy) (cors_origins : List Text) (req : Incoming)
      (app app' : Application) (e : Endpoint) (response : Response JsonValue)
      → is_totp (level_of e) ≡ false
      → serve fw p env st source auth x probe
          (configure_api auth verify_limiter internal_limiter cors_origins)
          req
          app
        ≡ (handled e response, app')
      → (mid : Application) × (handle p env st source x probe e req mid.process
          ≡ (response, app'.process))
        × (store_of fw p env st source auth x probe mid
            ≡ store_of fw p env st source auth x probe app)
  unfolding serve chosen configure_api serve_resource
  serve-handled_same verify_limiter internal_limiter cors_origins req app app' e response quiet h =
      let api = configure_api auth verify_limiter internal_limiter cors_origins in
      elim (Option-cases (chosen fw p env st source auth x probe api.resources req)) [
        | inr (r, there) ↦
            let taken = rw (there, serve) at h in
            let is_r : e ≡ r.endpoint =
              wrap_all-Reaches fw p env st source auth x probe (λ e'. e' ≡ r.endpoint) r.wraps
                (route fw p env st source auth x probe r)
                (route-LeadsTo fw p env st source auth x probe r) req app app' e response taken in
            let (mid, ran, same) =
              wrap_all-ArrivesSame fw p env st source auth x probe r.wraps
                (route fw p env st source auth x probe r)
                (find-All QuietUnlessTotp (λ r'. fw.fits r'.pattern req.path) api.resources r
                  (configure_api-Quiet verify_limiter internal_limiter cors_origins) there
                  (subst (λ e'. is_totp (level_of e') ≡ false) is_r quiet))
                req app app' e response taken in
            (mid, route-handled fw p env st source auth x probe r req mid app' e response ran, same)
        | inl nowhere ↦
            let (mid, ran, same) =
              wrap_all-ArrivesSame fw p env st source auth x probe api.scope_wraps
                (serve_routes fw p env st source auth x probe api.scope_routes) (refl, (tt, tt)) req
                app app' e response (rw (nowhere, serve) at h) in
            (
              mid,
              serve_routes-handled fw p env st source auth x probe api.scope_routes req mid app' e
                  response ran,
              same,
            )
      ]
