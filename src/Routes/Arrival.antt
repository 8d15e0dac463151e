-- ===== src/Routes/Arrival.antt =====
-- main.rs: the state in which a handler finds the process, and what of the store the layers before it
-- have changed.
use jwt_service_app.Base.{
  ℕ, ◌≡◌, refl, ap, ◌∙◌, subst, false, Bool-cases, inl, inr, Option-cases, List, [], ◌∷◌, All,
}
use jwt_service_app.Base.Text.{text_eq}
use jwt_service_app.Env.{Env}
use jwt_service_app.Store.{JtiStore}
use jwt_service_app.Token.Platform.{Platform}
use jwt_service_app.Token.Signed.{KeySource}
use jwt_service_app.Auth.Config.{AuthLevel, AuthConfig, authorize}
use jwt_service_app.Auth.Middleware.{admit, replay_claim, is_totp}
use jwt_service_app.Routes.{Endpoint, Layer, cors_layer, auth_layer, limit_layer, Resource, Api}
use jwt_service_app.Routes.Endpoints.{Incoming, Extract, Response, KeyProbe, handle, Process}
use jwt_service_app.Routes.Serve.{
  Framework, handled, App, Service, wrap, wrap_all, route, chosen, serve_resource, serve_routes,
  serve, finish,
}
use jwt_service_app.Routes.Layers.{wrap_cors-passes, wrap_limit-passes, go_on-passes}

module _ (fw : Framework) (p : Platform) (env : Env) (st : JtiStore) (source : KeySource p)
    (auth : AuthConfig) (x : Extract p.JsonValue) (probe : KeyProbe p env st source) where
  open p use {JsonValue}

  abbrev Application : Type 0
  Application = App fw p env st source auth x probe

  abbrev Layered : Type 0
  Layered = Service fw p env st source auth x probe

  abbrev pub store_of : Application → st.State
  store_of app = app.process.world.store

  -- A handled request gets through to the inner service, in some state.
  abbrev Arrives : Layered → Layered → Type 0
  Arrives inner outer =
      (req : Incoming) (app app' : Application) (e : Endpoint) (response : Response JsonValue)
      → outer req app ≡ (handled e response, app')
      → (mid : Application) × (inner req mid ≡ (handled e response, app'))

  -- In a state with the same store.
  abbrev ArrivesSame : Layered → Layered → Type 0
  ArrivesSame inner outer =
      (req : Incoming) (app app' : Application) (e : Endpoint) (response : Response JsonValue)
      → outer req app ≡ (handled e response, app')
      → (mid : Application) × (inner req mid ≡ (handled e response, app'))
        × (store_of mid ≡ store_of app)

  abbrev around : Layer → Layered → Layered
  around = wrap fw p env st source auth x probe

  wrap-Arrives : (layer : Layer) (inner : Layered) → Arrives inner (around layer inner)
  unfolding wrap
  wrap-Arrives (cors_layer policy) inner req app app' e response h =
      (app, wrap_cors-passes fw p env st source auth x probe policy inner req app app' e response h)
  wrap-Arrives (limit_layer strategy) inner req app app' e response h =
      let (l, passed) =
        wrap_limit-passes fw p env st source auth x probe strategy inner req app app' e response
          h in
      (record app { limits = l }, passed)
  wrap-Arrives (auth_layer level) inner req app app' e response h =
      let (_, passed) =
        go_on-passes fw p env st source auth x probe _ inner req app app' e response _ h in
      (_, passed)

  wrap_all-Arrives :
      (layers : List Layer) (inner : Layered)
      → Arrives inner (wrap_all fw p env st source auth x probe layers inner)
  unfolding wrap_all
  wrap_all-Arrives [] inner req app app' e response h = (app, h)
  wrap_all-Arrives (layer ∷ layers) inner req app app' e response h =
      let (mid, passed) = wrap_all-Arrives layers (around layer inner) req app app' e response h in
      wrap-Arrives layer inner req mid app' e response passed

  -- Only the check of TOTP asks the store.
  admit-same :
      (level : AuthLevel) (req : Incoming) (at' : ℕ) (s : st.State)
      → is_totp level ≡ false
      → (admit fw.hmac auth st level req.headers at' s).1 ≡ s
  unfolding admit replay_claim
  admit-same level req at' s other =
      elim (Bool-cases (authorize fw.hmac auth level req.headers at')) [
        | inl good ↦ rw (good, admit, replay_claim, other) refl
        | inr bad ↦ rw (bad, admit, replay_claim) refl
      ]

  abbrev pub AsksNothing : Layer → Type 0
  AsksNothing (auth_layer level) = is_totp level ≡ false
  AsksNothing _ = Unit

  wrap-ArrivesSame :
      (layer : Layer) (inner : Layered) → AsksNothing layer → ArrivesSame inner (around layer inner)
  unfolding wrap
  wrap-ArrivesSame (cors_layer policy) inner ok' req app app' e response h = (
    app,
    wrap_cors-passes fw p env st source auth x probe policy inner req app app' e response h,
    refl,
  )
  wrap-ArrivesSame (limit_layer strategy) inner ok' req app app' e response h =
      let (l, passed) =
        wrap_limit-passes fw p env st source auth x probe strategy inner req app app' e response
          h in
      (record app { limits = l }, passed, refl)
  wrap-ArrivesSame (auth_layer level) inner other req app app' e response h =
      let (_, passed) =
        go_on-passes fw p env st source auth x probe _ inner req app app' e response _ h in
      (_, passed, admit-same level req _ _ other)

  pub wrap_all-ArrivesSame :
      (layers : List Layer) (inner : Layered)
      → All AsksNothing layers
      → ArrivesSame inner (wrap_all fw p env st source auth x probe layers inner)
  unfolding wrap_all
  wrap_all-ArrivesSame [] inner quiet req app app' e response h = (app, h, refl)
  wrap_all-ArrivesSame (layer ∷ layers) inner (quiet, rest) req app app' e response h =
      let (mid, passed, same) =
        wrap_all-ArrivesSame layers (around layer inner) rest req app app' e response h in
      let (mid', passed', same') =
        wrap-ArrivesSame layer inner quiet req mid app' e response passed in
      (mid', passed', same' ∙ same)

  finished :
      (to e : Endpoint) (app app' : Application)
      (out : Response JsonValue × Process p env st source) (response : Response JsonValue)
      → finish fw p env st source auth x probe to app out ≡ (handled e response, app')
      → (to ≡ e) × (out ≡ (response, app'.process))
  finished to e app app' (r, s) response h =
      let same : r ≡ response = cc h in
      let left : s ≡ app'.process = ap (λ q. q.1.process) h in (cc h, cc (same, left))

  -- What a route that handles has run.
  pub route-handled :
      (r : Resource) (req : Incoming) (app app' : Application) (e : Endpoint)
      (response : Response JsonValue)
      → route fw p env st source auth x probe r req app ≡ (handled e response, app')
      → handle p env st source x probe e req app.process ≡ (response, app'.process)
  unfolding route
  route-handled r req app app' e response h = elim (Bool-cases (text_eq req.method r.method)) [
    | inr other ↦ absurd (cc (rw (other, route) at h))
    | inl fits ↦
        let (same, ran) = finished r.endpoint e app app' _ response (rw (fits, route) at h) in
        subst (λ e'. handle p env st source x probe e' req app.process ≡ (response, app'.process))
          same ran
  ]

  pub serve_resource-handled :
      (r : Resource) (req : Incoming) (app app' : Application) (e : Endpoint)
      (response : Response JsonValue)
      → serve_resource fw p env st source auth x probe r req app ≡ (handled e response, app')
      → (mid : Application) × (handle p env st source x probe e req mid.process
          ≡ (response, app'.process))
  unfolding serve_resource
  serve_resource-handled r req app app' e response h =
      let (mid, ran) = wrap_all-Arrives r.wraps _ req app app' e response h in
      (mid, route-handled r req mid app' e response ran)

  pub serve_routes-handled :
      (routes : List Resource) (req : Incoming) (app app' : Application) (e : Endpoint)
      (response : Response JsonValue)
      → serve_routes fw p env st source auth x probe routes req app ≡ (handled e response, app')
      → handle p env st source x probe e req app.process ≡ (response, app'.process)
  unfolding serve_routes
  serve_routes-handled routes req app app' e response h =
      elim (Option-cases (chosen fw p env st source auth x probe routes req)) [
        | inl nowhere ↦ absurd (cc (rw (nowhere, serve_routes) at h))
        | inr (r, there) ↦ route-handled r req app app' e response (rw (there, serve_routes) at h)
      ]

  -- A handled request ran its handler in some state, and left what the handler left.
  pub serve-handled :
      (api : Api) (req : Incoming) (app app' : Application) (e : Endpoint)
      (response : Response JsonValue)
      → serve fw p env st source auth x probe api req app ≡ (handled e response, app')
      → (mid : Application) × (handle p env st source x probe e req mid.process
          ≡ (response, app'.process))
  unfolding serve
  serve-handled api req app app' e response h =
      elim (Option-cases (chosen fw p env st source auth x probe api.resources req)) [
        | inr (r, there) ↦ serve_resource-handled r req app app' e response (rw (there, serve) at h)
        | inl nowhere ↦
            let (mid, ran) =
              wrap_all-Arrives api.scope_wraps _ req app app' e response
                (rw (nowhere, serve) at h) in
            (mid, serve_routes-handled api.scope_routes req mid app' e response ran)
      ]
