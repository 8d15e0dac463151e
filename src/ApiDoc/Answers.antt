-- ===== src/ApiDoc/Answers.antt =====
-- auth.rs, rate_limit.rs and main.rs: the statuses that the layers around a handler answer with.
use jwt_service_app.Base.{
  ℕ, ◌≡◌, subst, Bool, true, false, inl, inr, Option, none, some, Option-cases, Option-cases,
  Result, ok, err, List, [], ◌∷◌, All,
}
use jwt_service_app.Env.{Env}
use jwt_service_app.Store.{JtiStore}
use jwt_service_app.Token.Platform.{Platform}
use jwt_service_app.Token.Signed.{KeySource}
use jwt_service_app.Auth.Config.{
  open_level, proxy_secret, totp, metrics_token, AuthConfig, AuthLevel,
}
use jwt_service_app.RateLimit.Limiter.{Limits}
use jwt_service_app.Routes.{Layer, cors_layer, auth_layer, limit_layer}
use jwt_service_app.Routes.Endpoints.{
  Incoming, Extract, Response, bad_input, crashed, responded, KeyProbe,
}
use jwt_service_app.Routes.Serve.{
  Framework, Reply, answered_by_cors, denied, limited, limiter_crashed, no_route, handled, App,
  Service, wrap, wrap_all, go_on, within_limits,
}
use jwt_service_app.ApiDoc.Statuses.{HasStatus, response_status}

-- The status of an answer of a layer or of a handler, if the code gives it one.
abbrev pub reply_status : {V : Type 0} → Reply V → Option ℕ
reply_status (answered_by_cors status) = none
reply_status denied = some 401
reply_status (limited wait) = some 429
reply_status limiter_crashed = none
reply_status no_route = none
reply_status (handled e response) = response_status response

abbrev pub Holds : (ℕ → Bool) → Option ℕ → Type 0
Holds t none = Unit
Holds t (some n) = t n ≡ true

pub Holds-at : (t : ℕ → Bool) (o : Option ℕ) (n : ℕ) → Holds t o → o ≡ some n → t n ≡ true
Holds-at t none n h e = absurd (cc e)
Holds-at t (some m) n h e = subst (λ k. t k ≡ true) (cc e) h

-- What a layer answers by itself.
abbrev pub Allows : (ℕ → Bool) → Layer → Type 0
Allows t (cors_layer policy) = Unit
Allows t (auth_layer open_level) = Unit
Allows t (auth_layer proxy_secret) = t 401 ≡ true
Allows t (auth_layer totp) = t 401 ≡ true
Allows t (auth_layer metrics_token) = t 401 ≡ true
Allows t (limit_layer strategy) = t 429 ≡ true

module _ (fw : Framework) (p : Platform) (env : Env) (st : JtiStore) (source : KeySource p)
    (auth : AuthConfig) (x : Extract p.JsonValue) (probe : KeyProbe p env st source) where
  open p use {JsonValue}

  abbrev pub Application : Type 0
  Application = App fw p env st source auth x probe

  abbrev Layered : Type 0
  Layered = Service fw p env st source auth x probe

  -- The statuses of the answers to one request, in any state.
  abbrev pub AnswersIn : (ℕ → Bool) → Incoming → Layered → Type 0
  AnswersIn t req inner = (app : Application) → Holds t (reply_status (inner req app).0)

  pub HasStatus-Holds :
      (t : ℕ → Bool) (r : Response JsonValue) → HasStatus t r → Holds t (response_status r)
  HasStatus-Holds t bad_input h = tt
  HasStatus-Holds t crashed h = tt
  HasStatus-Holds t (responded (ok body)) h = h
  HasStatus-Holds t (responded (err e)) h = h

  module _ (t : ℕ → Bool) (req : Incoming) where
    go_on-AnswersIn :
        (level : AuthLevel) (inner : Layered)
        → t 401 ≡ true
        → AnswersIn t req inner
        → (app : Application) (decision : Bool × st.State)
        → Holds t
            (reply_status (go_on fw p env st source auth x probe level inner req decision app).0)
    go_on-AnswersIn _ inner refusal good app (true, s) = good _
    go_on-AnswersIn _ inner refusal good app (false, s) = refusal

    within_limits-AnswersIn :
        (inner : Layered)
        → t 429 ≡ true
        → AnswersIn t req inner
        → (app : Application)
          (verdict : Option (Result ℕ (Unit {0}) × Limits fw.governor fw.parse_ip))
        → Holds t
            (reply_status (within_limits fw p env st source auth x probe inner req verdict app).0)
    within_limits-AnswersIn inner refusal good app none = tt
    within_limits-AnswersIn inner refusal good app (some (ok u, l)) = good _
    within_limits-AnswersIn inner refusal good app (some (err wait, l)) = refusal

    wrap-AnswersIn :
        (layer : Layer) (inner : Layered)
        → Allows t layer
        → AnswersIn t req inner
        → AnswersIn t req (wrap fw p env st source auth x probe layer inner)
    unfolding wrap
    wrap-AnswersIn (cors_layer policy) inner a good app = elim (Option-cases (fw.cors policy req)) [
      | inl passes ↦ rw (passes, reply_status) (good app)
      | inr (status, refused) ↦ rw (refused, reply_status) tt
    ]
    wrap-AnswersIn (auth_layer open_level) inner a good app = good _
    wrap-AnswersIn (auth_layer proxy_secret) inner a good app =
        go_on-AnswersIn proxy_secret inner a good app _
    wrap-AnswersIn (auth_layer totp) inner a good app = go_on-AnswersIn totp inner a good app _
    wrap-AnswersIn (auth_layer metrics_token) inner a good app =
        go_on-AnswersIn metrics_token inner a good app _
    wrap-AnswersIn (limit_layer strategy) inner a good app =
        within_limits-AnswersIn inner a good app _

    pub wrap_all-AnswersIn :
        (layers : List Layer) (inner : Layered)
        → All (Allows t) layers
        → AnswersIn t req inner
        → AnswersIn t req (wrap_all fw p env st source auth x probe layers inner)
    unfolding wrap_all
    wrap_all-AnswersIn [] inner a good = good
    wrap_all-AnswersIn (layer ∷ layers) inner a good =
        wrap_all-AnswersIn layers _ a.1 (wrap-AnswersIn layer inner a.0 good)
