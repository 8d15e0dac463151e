-- ===== src/Routes/Layers.antt =====
-- main.rs: what the layers around a service let through to the handlers.
use jwt_service_app.Base.{
  ℕ, ◌≡◌, refl, sym, subst, Bool, true, false, Bool-cases, inl, inr, some, Option-cases,
  Result-cases, List, [], ◌∷◌, All, find,
}
use jwt_service_app.Base.Text.{text_eq}
use jwt_service_app.Env.{Env}
use jwt_service_app.Store.{JtiStore}
use jwt_service_app.Token.Platform.{Platform}
use jwt_service_app.Token.Signed.{KeySource}
use jwt_service_app.Auth.Config.{
  AuthLevel, open_level, proxy_secret, totp, metrics_token, AuthConfig, authorize,
}
use jwt_service_app.Auth.Replay.{admit-refused}
use jwt_service_app.RateLimit.Limiter.{Strategy, Limits, check}
use jwt_service_app.Routes.{Endpoint, Layer, cors_layer, auth_layer, limit_layer, Resource, Cors}
use jwt_service_app.Routes.Endpoints.{Incoming, Extract, Response, KeyProbe}
use jwt_service_app.Routes.Serve.{
  Framework, handled, App, Service, now, wrap, wrap_all, route, with_store, go_on,
}

-- The level that each endpoint is documented to have.
abbrev pub level_of : Endpoint → AuthLevel
level_of Endpoint.verify_token = proxy_secret
level_of Endpoint.metrics = metrics_token
level_of Endpoint.openapi_spec = open_level
level_of Endpoint.livez = open_level
level_of Endpoint.readyz = open_level
level_of _ = totp

pub find-All {ℓ κ} :
    {A : Type ℓ} (P : A → Type κ) (t : A → Bool) (l : List A) (a : A)
    → All P l
    → find t l ≡ some a
    → P a
find-All P t [] a h e = absurd (cc e)
find-All P t (x ∷ l) a (hx, h) e = elim (Bool-cases (t x)) [
  | inl here ↦ subst P (cc (rw here at e)) hx
  | inr later ↦ find-All P t l a h (rw later at e)
]

module _ (fw : Framework) (p : Platform) (env : Env) (st : JtiStore) (source : KeySource p)
    (auth : AuthConfig) (x : Extract p.JsonValue) (probe : KeyProbe p env st source) where
  open p use {JsonValue}

  abbrev pub Application : Type 0
  Application = App fw p env st source auth x probe

  abbrev pub Layered : Type 0
  Layered = Service fw p env st source auth x probe

  -- The service reaches handlers only for requests that pass the check of a level.
  abbrev pub IsGuarded : AuthLevel → Layered → Type 0
  IsGuarded level inner =
      (req : Incoming) (app app' : Application) (e : Endpoint) (response : Response JsonValue)
      → inner req app ≡ (handled e response, app')
      → authorize fw.hmac auth level req.headers (now fw p env st source auth x probe app) ≡ true

  -- The service leads only to handlers of some kind.
  abbrev pub Reaches : (Endpoint → Type 0) → Layered → Type 0
  Reaches P inner =
      (req : Incoming) (app app' : Application) (e : Endpoint) (response : Response JsonValue)
      → inner req app ≡ (handled e response, app')
      → P e

  -- The service leads to one handler.
  abbrev pub LeadsTo : Endpoint → Layered → Type 0
  LeadsTo to = Reaches (λ e. e ≡ to)

  abbrev pub around : Layer → Layered → Layered
  around = wrap fw p env st source auth x probe

  pub wrap_auth-IsGuarded :
      (level : AuthLevel) (inner : Layered) → IsGuarded level (around (auth_layer level) inner)
  unfolding wrap
  wrap_auth-IsGuarded level inner req app app' e response h =
      let at' : ℕ = now fw p env st source auth x probe app in
      elim (Bool-cases (authorize fw.hmac auth level req.headers at')) [
        | inl good ↦ good
        | inr bad ↦ absurd (
            cc (
              rw
                (
                  admit-refused fw.hmac auth st level req.headers at' app.process.world.store bad,
                  wrap,
                )
                at h))
      ]

  pub wrap_cors-passes :
      (policy : Cors) (inner : Layered) (req : Incoming) (app app' : Application) (e : Endpoint)
      (response : Response JsonValue)
      → around (cors_layer policy) inner req app ≡ (handled e response, app')
      → inner req app ≡ (handled e response, app')
  unfolding wrap
  wrap_cors-passes policy inner req app app' e response h =
      elim (Option-cases (fw.cors policy req)) [
        | inl passes ↦ rw (passes, wrap) at h
        | inr (status, refused) ↦ absurd (cc (rw (refused, wrap) at h))
      ]

  pub wrap_limit-passes :
      (strategy : Strategy) (inner : Layered) (req : Incoming) (app app' : Application)
      (e : Endpoint) (response : Response JsonValue)
      → around (limit_layer strategy) inner req app ≡ (handled e response, app')
      → (l : Limits fw.governor fw.parse_ip) × (inner req (record app { limits = l })
          ≡ (handled e response, app'))
  unfolding wrap
  wrap_limit-passes strategy inner req app app' e response h =
      elim (Option-cases (
        check fw.governor fw.parse_ip strategy req.source
          (fw.instant (now fw p env st source auth x probe app)) app.limits)) [
            | inl crashed ↦ absurd (cc (rw (crashed, wrap) at h))
            | inr ((verdict, l), asked) ↦ elim (Result-cases verdict) [
              | inl (u, within) ↦ (l, rw (asked, within, wrap) at h)
              | inr (wait, above) ↦ absurd (cc (rw (asked, above, wrap) at h))
            ]
          ]

  pub wrap_cors-IsGuarded :
      (level : AuthLevel) (policy : Cors) (inner : Layered)
      → IsGuarded level inner
      → IsGuarded level (around (cors_layer policy) inner)
  wrap_cors-IsGuarded level policy inner guarded req app app' e response h =
      guarded req app app' e response (wrap_cors-passes policy inner req app app' e response h)

  pub wrap_limit-IsGuarded :
      (level : AuthLevel) (strategy : Strategy) (inner : Layered)
      → IsGuarded level inner
      → IsGuarded level (around (limit_layer strategy) inner)
  wrap_limit-IsGuarded level strategy inner guarded req app app' e response h =
      let (l, passed) = wrap_limit-passes strategy inner req app app' e response h in
      guarded req (record app { limits = l }) app' e response passed

  pub go_on-passes :
      (level : AuthLevel) (inner : Layered) (req : Incoming) (app app' : Application) (e : Endpoint)
      (response : Response JsonValue) (decision : Bool × st.State)
      → go_on fw p env st source auth x probe level inner req decision app
        ≡ (handled e response, app')
      → (decision.0 ≡ true)
        × (inner req (with_store fw p env st source auth x probe decision.1 app)
            ≡ (handled e response, app'))
  go_on-passes _ inner req app app' e response (true, s) h = (refl, h)
  go_on-passes _ inner req app app' e response (false, s) h = absurd (cc h)

  wrap-Reaches :
      (P : Endpoint → Type 0) (layer : Layer) (inner : Layered)
      → Reaches P inner
      → Reaches P (around layer inner)
  unfolding wrap
  wrap-Reaches P (cors_layer policy) inner leads req app app' e response h =
      leads req app app' e response (wrap_cors-passes policy inner req app app' e response h)
  wrap-Reaches P (limit_layer strategy) inner leads req app app' e response h =
      let (l, passed) = wrap_limit-passes strategy inner req app app' e response h in
      leads req (record app { limits = l }) app' e response passed
  wrap-Reaches P (auth_layer level) inner leads req app app' e response h =
      let (_, passed) = go_on-passes _ inner req app app' e response _ h in
      leads req _ app' e response passed

  pub wrap_all-Reaches :
      (P : Endpoint → Type 0) (layers : List Layer) (inner : Layered)
      → Reaches P inner
      → Reaches P (wrap_all fw p env st source auth x probe layers inner)
  unfolding wrap_all
  wrap_all-Reaches P [] inner leads = leads
  wrap_all-Reaches P (layer ∷ layers) inner leads =
      wrap_all-Reaches P layers (around layer inner) (wrap-Reaches P layer inner leads)

  pub route-LeadsTo : (r : Resource) → LeadsTo r.endpoint (route fw p env st source auth x probe r)
  unfolding route
  route-LeadsTo r req app app' e response h = elim (Bool-cases (text_eq req.method r.method)) [
    | inl fits ↦ cc (rw (fits, route) at h)
    | inr other ↦ absurd (cc (rw (other, route) at h))
  ]

  -- Every handler that the service reaches had the check of its own level.
  abbrev pub IsSafe : Layered → Type 0
  IsSafe inner =
      (req : Incoming) (app app' : Application) (e : Endpoint) (response : Response JsonValue)
      → inner req app ≡ (handled e response, app')
      → authorize fw.hmac auth (level_of e) req.headers (now fw p env st source auth x probe app)
        ≡ true

  pub IsGuarded-IsSafe :
      (to : Endpoint) (inner : Layered)
      → IsGuarded (level_of to) inner
      → LeadsTo to inner
      → IsSafe inner
  IsGuarded-IsSafe to inner guarded leads req app app' e response h =
      subst
        (λ e'.
          authorize fw.hmac auth (level_of e') req.headers (now fw p env st source auth x probe app)
          ≡ true)
        (sym (leads req app app' e response h)) (guarded req app app' e response h)
