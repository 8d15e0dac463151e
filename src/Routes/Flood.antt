-- ===== src/Routes/Flood.antt =====
-- main.rs: the per-address limit of the verification endpoint lies outside its access check.
use jwt_service_app.Base.{
  ℕ, ◌≡◌, ◌≢◌, refl, sym, ap, Bool, true, false, Bool-cases, inl, inr, some, Option-cases,
  Result-cases, List, [], ◌∷◌, ◌++◌, All, if◌then◌else◌,
}
use jwt_service_app.Base.Text.{Text, text_eq}
use jwt_service_app.Env.{Env}
use jwt_service_app.Counters.{rate_limited}
use jwt_service_app.Store.{JtiStore}
use jwt_service_app.Token.Platform.{Platform}
use jwt_service_app.Token.Signed.{KeySource}
use jwt_service_app.Auth.Config.{
  AuthLevel, proxy_secret, totp, metrics_token, AuthConfig, metrics_enabled,
}
use jwt_service_app.RateLimit.Limiter.{Strategy, check}
use jwt_service_app.Routes.{
  cors_layer, auth_layer, limit_layer, Resource, configure_api, Cors, verify_cors, verify_resource,
  metrics_resource,
}
use jwt_service_app.Routes.Endpoints.{Incoming, Extract, KeyProbe}
use jwt_service_app.Routes.Serve.{
  Framework, limited, App, Service, now, wrap, wrap_all, route, chosen, serve_resource, serve,
  with_store, go_on,
}
use jwt_service_app.Routes.Layers.{level_of, find-All}

is_proxy : AuthLevel → Bool
is_proxy proxy_secret = true
is_proxy _ = false

module _ (fw : Framework) (p : Platform) (env : Env) (st : JtiStore) (source : KeySource p)
    (auth : AuthConfig) (x : Extract p.JsonValue) (probe : KeyProbe p env st source) where
  open p use {JsonValue}

  abbrev Application : Type 0
  Application = App fw p env st source auth x probe

  abbrev Layered : Type 0
  Layered = Service fw p env st source auth x probe

  -- If the answer is that of a limit, then the process is as it was but for that counter.
  abbrev Untouched : Layered → Type 0
  Untouched inner =
      (req : Incoming) (app app' : Application) (wait : ℕ)
      → inner req app ≡ (limited wait, app')
      → app'.process ≡ record app.process { counted = app.process.counted ++ rate_limited ∷ [] }

  abbrev NeverLimits : Layered → Type 0
  NeverLimits inner =
      (req : Incoming) (app app' : Application) (wait : ℕ) → inner req app ≢ (limited wait, app')

  route-NeverLimits : (r : Resource) → NeverLimits (route fw p env st source auth x probe r)
  unfolding route
  route-NeverLimits r req app app' wait h = elim (Bool-cases (text_eq req.method r.method)) [
    | inl fits ↦ cc (rw (fits, route) at h)
    | inr other ↦ cc (rw (other, route) at h)
  ]

  go_on-NeverLimits :
      (level : AuthLevel) (inner : Layered) (req : Incoming) (app app' : Application) (wait : ℕ)
      (decision : Bool × st.State)
      → NeverLimits inner
      → go_on fw p env st source auth x probe level inner req decision app ≢ (limited wait, app')
  go_on-NeverLimits _ inner req app app' wait (true, s) never h =
      never req (with_store fw p env st source auth x probe s app) app' wait h
  go_on-NeverLimits _ inner req app app' wait (false, s) never h = cc h

  wrap_auth-NeverLimits :
      (level : AuthLevel) (inner : Layered)
      → NeverLimits inner
      → NeverLimits (wrap fw p env st source auth x probe (auth_layer level) inner)
  unfolding wrap
  wrap_auth-NeverLimits level inner never req app app' wait h =
      go_on-NeverLimits _ inner req app app' wait _ never h

  wrap_limit-Untouched :
      (strategy : Strategy) (inner : Layered)
      → NeverLimits inner
      → Untouched (wrap fw p env st source auth x probe (limit_layer strategy) inner)
  unfolding wrap
  wrap_limit-Untouched strategy inner never req app app' wait h =
      let asked =
        check fw.governor fw.parse_ip strategy req.source
          (fw.instant (now fw p env st source auth x probe app)) app.limits in
      elim (Option-cases asked) [
        | inl crashed ↦ absurd (cc (rw (crashed, wrap) at h))
        | inr ((verdict, l), was) ↦ elim (Result-cases verdict) [
          | inl (u, within) ↦
              absurd (never req (record app { limits = l }) app' wait (rw (was, within, wrap) at h))
          | inr (w, above) ↦ ap (λ r. r.1.process) (sym (rw (was, above, wrap) at h))
        ]
      ]

  wrap_cors-Untouched :
      (policy : Cors) (inner : Layered)
      → Untouched inner
      → Untouched (wrap fw p env st source auth x probe (cors_layer policy) inner)
  unfolding wrap
  wrap_cors-Untouched policy inner untouched req app app' wait h =
      elim (Option-cases (fw.cors policy req)) [
        | inl silent ↦ untouched req app app' wait (rw (silent, wrap) at h)
        | inr (status, refused) ↦ absurd (cc (rw (refused, wrap) at h))
      ]

  abbrev UntouchedIfPublic : Resource → Type 0
  UntouchedIfPublic r =
      level_of r.endpoint ≡ proxy_secret
      → Untouched (serve_resource fw p env st source auth x probe r)

  verify_resource-Untouched :
      (strategy : Strategy) (cors_origins : List Text)
      → UntouchedIfPublic (verify_resource strategy cors_origins)
  unfolding serve_resource wrap_all
  verify_resource-Untouched strategy cors_origins level =
      let leaf = route fw p env st source auth x probe (verify_resource strategy cors_origins) in
      let inner = wrap fw p env st source auth x probe (auth_layer proxy_secret) leaf in
      wrap_cors-Untouched (verify_cors cors_origins)
        (wrap fw p env st source auth x probe (limit_layer strategy) inner)
        (wrap_limit-Untouched strategy inner (
          wrap_auth-NeverLimits proxy_secret leaf
            (route-NeverLimits (verify_resource strategy cors_origins))))

  not_public : (l : AuthLevel) → is_proxy l ≡ false → l ≢ proxy_secret
  unfolding is_proxy
  not_public l other e = absurd (cc (other, ap is_proxy e))

  configure_api-Untouched :
      (verify_limiter internal_limiter : Strategy) (cors_origins : List Text)
      → All UntouchedIfPublic
          (configure_api auth verify_limiter internal_limiter cors_origins).resources
  unfolding configure_api is_proxy
  configure_api-Untouched verify_limiter internal_limiter cors_origins = (
    (λ h. absurd (not_public totp refl h)),
    (
      verify_resource-Untouched verify_limiter cors_origins,
      (
        (λ h. absurd (not_public totp refl h)),
        (
          (λ h. absurd (not_public totp refl h)),
          ((λ h. absurd (not_public totp refl h)), metrics_part (metrics_enabled auth)),
        ),
      ),
    ),
  )
    where
      metrics_part :
          (enabled : Bool) → All UntouchedIfPublic (if enabled then metrics_resource ∷ [] else [])
      metrics_part true = ((λ h. absurd (not_public metrics_token refl h)), tt)
      metrics_part false = tt

  -- A request to the verification endpoint that is answered by its rate limit is counted as such, and
  -- otherwise leaves the process as it was: the store, the keys, every other counter, and even the
  -- number of readings of the clock, since no access check and no handler has run.
  pub serve-limited_first :
      (verify_limiter internal_limiter : Strategy) (cors_origins : List Text) (req : Incoming)
      (app app' : Application) (wait : ℕ) (r : Resource)
      → chosen fw p env st source auth x probe
          (configure_api auth verify_limiter internal_limiter cors_origins).resources
          req
        ≡ some r
      → level_of r.endpoint ≡ proxy_secret
      → serve fw p env st source auth x probe
          (configure_api auth verify_limiter internal_limiter cors_origins)
          req
          app
        ≡ (limited wait, app')
      → app'.process ≡ record app.process { counted = app.process.counted ++ rate_limited ∷ [] }
  unfolding serve chosen
  serve-limited_first verify_limiter internal_limiter cors_origins req app app' wait r there level
        h =
      let api = configure_api auth verify_limiter internal_limiter cors_origins in
      find-All UntouchedIfPublic (λ r'. fw.fits r'.pattern req.path) api.resources r
        (configure_api-Untouched verify_limiter internal_limiter cors_origins) there level req app
        app' wait (rw (there, serve) at h)
