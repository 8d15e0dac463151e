-- ===== src/ApiDoc/Documented.antt =====
-- openapi.rs and main.rs: the statuses of the application's answers, against the description.
use jwt_service_app.Base.{
  ℕ, ◌≡◌, refl, subst, Bool, true, false, Bool-cases, inl, inr, Option, none, some, Option-cases,
  List, [], ◌∷◌, ◌++◌, All, if◌then◌else◌,
}
use jwt_service_app.Base.Text.{Text, text_eq}
use jwt_service_app.Env.{Env}
use jwt_service_app.Store.{JtiStore}
use jwt_service_app.Token.Platform.{Platform}
use jwt_service_app.Token.Signed.{KeySource}
use jwt_service_app.Auth.Config.{AuthConfig, metrics_enabled}
use jwt_service_app.RateLimit.Limiter.{Strategy}
use jwt_service_app.Routes.{Endpoint, Resource, Api, configure_api, metrics_resource}
use jwt_service_app.Routes.Endpoints.{Incoming, Extract, KeyProbe}
use jwt_service_app.Routes.Serve.{
  Framework, App, route, chosen, serve, serve_resource, serve_routes,
}
use jwt_service_app.Routes.Layers.{find-All}
use jwt_service_app.ApiDoc.{
  create_token_path, verify_token_path, refresh_token_path, revoke_token_path,
  revoke_subject_tokens_path, metrics_path,
}
use jwt_service_app.ApiDoc.Statuses.{operation_of, contains, documented_statuses, missing, expected}
use jwt_service_app.ApiDoc.Replies.{handle-HasStatus}
use jwt_service_app.ApiDoc.Answers.{
  reply_status, Holds, Holds-at, Allows, AnswersIn, HasStatus-Holds, wrap_all-AnswersIn,
}

module _ (fw : Framework) (p : Platform) (env : Env) (st : JtiStore) (source : KeySource p)
    (auth : AuthConfig) (x : Extract p.JsonValue) (probe : KeyProbe p env st source) where
  open p use {JsonValue}

  abbrev pub Application : Type 0
  Application = App fw p env st source auth x probe

  route-AnswersIn :
      (r : Resource) (req : Incoming)
      → AnswersIn fw p env st source auth x probe
          (expected r.endpoint)
          req
          (route fw p env st source auth x probe r)
  unfolding route
  route-AnswersIn r req app = elim (Bool-cases (text_eq req.method r.method)) [
    | inl fits ↦
        rw (fits, reply_status)
          (HasStatus-Holds fw p env st source auth x probe (expected r.endpoint) _
            (handle-HasStatus p env st source x probe r.endpoint req app.process))
    | inr other ↦ rw (other, reply_status) tt
  ]

  -- The endpoint whose resource or route takes a request.
  abbrev pub route_target : Option Resource → Option Endpoint
  route_target none = none
  route_target (some r) = some r.endpoint

  abbrev pub first_of : Option Resource → Option Endpoint → Option Endpoint
  first_of none other = other
  first_of (some r) other = some r.endpoint

  abbrev pub target : Api → Incoming → Option Endpoint
  target api req =
      first_of (chosen fw p env st source auth x probe api.resources req)
        (route_target (chosen fw p env st source auth x probe api.scope_routes req))

  abbrev IsDocumented : Resource → Type 0
  IsDocumented r = All (Allows (expected r.endpoint)) r.wraps

  metrics-IsDocumented :
      (enabled : Bool) → All IsDocumented (if enabled then metrics_resource ∷ [] else [])
  unfolding metrics_path
  metrics-IsDocumented true = ((refl, (tt, tt)), tt)
  metrics-IsDocumented false = tt

  module _ (verify_limiter internal_limiter : Strategy) (cors_origins : List Text) where
    abbrev api : Api
    api = configure_api auth verify_limiter internal_limiter cors_origins

    resources-IsDocumented : All IsDocumented api.resources
    unfolding configure_api create_token_path verify_token_path refresh_token_path revoke_token_path
        revoke_subject_tokens_path
    resources-IsDocumented = (
      (refl, (refl, (tt, tt))),
      (
        (refl, (refl, (tt, tt))),
        (
          (refl, (refl, (tt, tt))),
          (
            (refl, (refl, (tt, tt))),
            ((refl, (refl, (tt, tt))), metrics-IsDocumented (metrics_enabled auth)),
          ),
        ),
      ),
    )

    serve_routes-documented :
        (e : Endpoint) (req : Incoming) (app : Application)
        → route_target (chosen fw p env st source auth x probe api.scope_routes req) ≡ some e
        → Holds
            (expected e)
            (reply_status (serve_routes fw p env st source auth x probe api.scope_routes req app).0)
    unfolding serve_routes
    serve_routes-documented e req app to =
        elim (Option-cases (chosen fw p env st source auth x probe api.scope_routes req)) [
          | inl nowhere ↦ absurd (cc (rw nowhere at to))
          | inr (r, there) ↦
              rw (there, reply_status)
                (let same : r.endpoint ≡ e = cc (rw there at to) in
                  subst
                    (λ e'.
                      Holds (expected e')
                        (reply_status (route fw p env st source auth x probe r req app).0))
                    same (route-AnswersIn r req app))
        ]

    serve-Holds :
        (e : Endpoint) (req : Incoming) (app : Application)
        → target api req ≡ some e
        → Holds (expected e) (reply_status (serve fw p env st source auth x probe api req app).0)
    unfolding serve serve_resource configure_api
    serve-Holds e req app to =
        elim (Option-cases (chosen fw p env st source auth x probe api.resources req)) [
          | inl nowhere ↦
              rw (nowhere, reply_status, serve)
                (wrap_all-AnswersIn fw p env st source auth x probe (expected e) req api.scope_wraps
                  (serve_routes fw p env st source auth x probe api.scope_routes) (tt, (tt, tt))
                  (λ app'. serve_routes-documented e req app' (rw nowhere at to)) app)
          | inr (r, there) ↦
              rw (there, reply_status, serve)
                (let same : r.endpoint ≡ e = cc (rw there at to) in
                  subst
                    (λ e'.
                      Holds (expected e')
                        (reply_status (serve_resource fw p env st source auth x probe r req app).0))
                    same
                    (wrap_all-AnswersIn fw p env st source auth x probe (expected r.endpoint) req
                      r.wraps _
                      (find-All IsDocumented (λ r'. fw.fits r'.pattern req.path) api.resources r
                        resources-IsDocumented there)
                      (route-AnswersIn r req) app))
        ]

    -- An answer to a request, if the code gives it a status, has one that the description names for
    -- the endpoint that takes the request, but for three: 403 where a refresh token is
    -- exchanged, 401 for the metrics, and the 200 of the description itself, which it does not name. This holds for the answers of the layers and of the handlers,
    -- whatever the configuration is.
    pub serve-documented :
        (req : Incoming) (app : Application) (e : Endpoint) (n : ℕ)
        → target api req ≡ some e
        → reply_status (serve fw p env st source auth x probe api req app).0 ≡ some n
        → contains (documented_statuses (operation_of e) ++ missing e) n ≡ true
    serve-documented req app e n to status =
        Holds-at (expected e) _ n (serve-Holds e req app to) status
