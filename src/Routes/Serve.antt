-- ===== src/Routes/Serve.antt =====
-- main.rs: what the application answers to a request: the first resource whose pattern fits takes it
-- through its layers, and otherwise the scope does. The matcher of actix-web, the crate actix-cors, the
-- token buckets, the parser of IP addresses and the HMAC are parameters.
use jwt_service_app.Base.{
  ℕ, ◌+◌, Bool, true, false, Option, none, some, List, [], ◌∷◌, ◌++◌, find, Result, ok, err,
  if◌then◌else◌,
}
use jwt_service_app.Base.Text.{Text, text_eq}
use jwt_service_app.Env.{Env}
use jwt_service_app.Counters.{Metric, auth_denied, rate_limited}
use jwt_service_app.Store.{JtiStore}
use jwt_service_app.Token.Platform.{Platform}
use jwt_service_app.Token.Signed.{KeySource}
use jwt_service_app.Auth.Hotp.{Hmac}
use jwt_service_app.Auth.Config.{AuthLevel, AuthConfig, as_str}
use jwt_service_app.Auth.Middleware.{admit}
use jwt_service_app.RateLimit.Address.{IpParser}
use jwt_service_app.RateLimit.Limiter.{Governor, Limits, check}
use jwt_service_app.Telemetry.RequestLog
use jwt_service_app.Routes.{
  Endpoint, Cors, Layer, cors_layer, auth_layer, limit_layer, Resource, Api,
}
use jwt_service_app.Routes.Endpoints.{Incoming, Extract, Response, KeyProbe, Process, handle}

-- The code around the handlers that is not the repository's. `fits` is whether a path fits a
-- pattern; `cors` is the status of the answer that a policy gives itself, if it does; `instant` is
-- the clock of the limiters.
pub record Framework : Type 1 where
  pub fits : Text → Text → Bool
  pub cors : Cors → Incoming → Option ℕ
  pub hmac : Hmac
  pub governor : Governor
  pub parse_ip : IpParser
  pub instant : ℕ → ℕ

-- What a request gets: the answer of a layer, no route, or what the handler of an endpoint makes.
pub data Reply (V : Type 0) : Type 0 where
  answered_by_cors : ℕ → Reply V
  denied : Reply V
  limited : ℕ → Reply V
  limiter_crashed no_route : Reply V
  handled : Endpoint → Response V → Reply V

module _ (fw : Framework) (p : Platform) (env : Env) (st : JtiStore) (source : KeySource p)
    (auth : AuthConfig) (x : Extract p.JsonValue) (probe : KeyProbe p env st source) where
  open p use {JsonValue}

  -- The state of the process, with the buckets of the limiters.
  pub record App : Type 0 where
    pub process : Process p env st source
    pub limits : Limits fw.governor fw.parse_ip

  abbrev pub Service : Type 0
  Service = Incoming → App → Reply JsonValue × App

  -- The process after the access check of a layer.
  abbrev pub with_store : st.State → App → App
  with_store s app =
      let process = app.process in
      let w = process.world in
      record app {
        process = record process { world = record w { store = s; reads = w.reads + 1 } };
      }

  abbrev pub now : App → ℕ
  now app = p.clock app.process.world.reads

  abbrev pub count : Metric → App → App
  count event app =
      let process = app.process in
      record app { process = record process { counted = process.counted ++ event ∷ [] } }

  -- A denial is counted under the name of the level.
  abbrev pub go_on : AuthLevel → Service → Incoming → Bool × st.State → App → Reply JsonValue × App
  go_on level inner req (true, s) app = inner req (with_store s app)
  go_on level inner req (false, s) app =
      (denied, count (auth_denied (as_str level)) (with_store s app))

  abbrev pub within_limits :
      Service
      → Incoming
      → Option (Result ℕ (Unit {0}) × Limits fw.governor fw.parse_ip)
      → App
      → Reply JsonValue × App
  within_limits inner req none app = (limiter_crashed, app)
  within_limits inner req (some (ok _, l)) app = inner req (record app { limits = l })
  within_limits inner req (some (err wait, l)) app =
      (limited wait, count rate_limited (record app { limits = l }))

  -- One `.wrap` around a service.
  unfoldable pub wrap : Layer → Service → Service
  unfolding admit check as_str
  wrap (cors_layer policy) inner req app = elim (fw.cors policy req) [
    | some status ↦ (answered_by_cors status, app)
    | none ↦ inner req app
  ]
  wrap (auth_layer level) inner req app =
      go_on level inner req
        (admit fw.hmac auth st level req.headers (now app) app.process.world.store) app
  wrap (limit_layer strategy) inner req app =
      within_limits inner req
        (check fw.governor fw.parse_ip strategy req.source (fw.instant (now app)) app.limits) app

  unfoldable pub wrap_all : List Layer → Service → Service
  unfolding wrap
  wrap_all [] inner = inner
  wrap_all (layer ∷ layers) inner = wrap_all layers (wrap layer inner)

  abbrev pub finish :
      Endpoint → App → Response JsonValue × Process p env st source → Reply JsonValue × App
  finish e app (response, s) = (handled e response, record app { process = s })

  -- `.route(web::method().to(handler))`
  unfoldable pub route : Resource → Service
  unfolding handle
  route r req app =
      if text_eq req.method r.method
      then finish r.endpoint app (handle p env st source x probe r.endpoint req app.process)
      else (no_route, app)

  unfoldable pub chosen : List Resource → Incoming → Option Resource
  chosen resources req = find (λ r. fw.fits r.pattern req.path) resources

  unfoldable pub serve_routes : List Resource → Service
  unfolding chosen route
  serve_routes resources req app = elim (chosen resources req) [
    | none ↦ (no_route, app)
    | some r ↦ route r req app
  ]

  unfoldable pub serve_resource : Resource → Service
  unfolding wrap_all route
  serve_resource r = wrap_all r.wraps (route r)

  unfoldable pub serve : Api → Service
  unfolding chosen serve_routes serve_resource
  serve api req app = elim (chosen api.resources req) [
    | some r ↦ serve_resource r req app
    | none ↦ wrap_all api.scope_wraps (serve_routes api.scope_routes) req app
  ]

  -- The errors of `serve`: it has none, since an error of a handler is a response already.
  pub data Never : Type 0 where

  -- The application of `main`: `RequestLog` around everything. The parameters are those of
  -- Telemetry/RequestLog; with the answer comes the `X-Request-Id` of the response.
  unfoldable pub application :
      (ℕ → Text)
      → (Text → Bool)
      → Api
      → Incoming
      → ℕ × App
      → Result Never (Reply JsonValue × Option Text) × ℕ × App
  unfolding serve
  application new_uuid header_value api req =
      jwt_service_app.Telemetry.RequestLog.call new_uuid header_value req.headers
        (λ app. let (reply, app') = serve api req app in (ok reply, app'))
