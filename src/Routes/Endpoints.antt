-- ===== src/Routes/Endpoints.antt =====
-- handlers.rs and main.rs: the handler that a route leads to, with what actix hands it. The extraction
-- of a body or of a path segment and the texts that are only printed are a parameter.
use jwt_service_app.Base.{ℕ, ◌+◌, Bool, Option, none, some, List, [], ◌++◌, Result, ok, err, is_ok}
use jwt_service_app.Base.Text.{Text}
use jwt_service_app.Env.{Env}
use jwt_service_app.Counters.{Metric}
use jwt_service_app.Store.{JtiStore}
use jwt_service_app.Token.Platform.{Platform, TokenClaims}
use jwt_service_app.Token.Run.{World}
use jwt_service_app.Token.Signed.{KeySource}
use jwt_service_app.Auth.Validators.{Headers}
use jwt_service_app.RateLimit.Limiter.{Request}
use jwt_service_app.Handlers.{
  HttpError, Header, TokenRequest, TokenVerifyRequest, TokenResponse, ReadinessResponse, Answer,
  create_token, verify_handler, refresh_token, revoke_token, revoke_subject_tokens, readyz,
}
use jwt_service_app.Routes.{Endpoint}

-- A request, as far as the code looks at it.
pub record Incoming : Type 0 where
  pub method : Text
  pub path : Text
  pub headers : Headers
  pub host : Header
  pub source : Request
  pub body : List ℕ

-- What actix-web takes from a request, with serde_json, and the pages that others print.
pub record Extract (V : Type 0) : Type 0 where
  pub token_request : Incoming → Option (TokenRequest V)
  pub verify_request : Incoming → Option TokenVerifyRequest
  pub refresh_request : Incoming → Option Text
  pub segment : Incoming → Option Text
  pub specification : Text
  pub exposition : List Metric → Text

-- The body of a success.
pub data Body (V : Type 0) : Type 0 where
  issued : TokenResponse → Body V
  verified : TokenClaims V → Body V
  revoked : Body V
  revoked_subject : ℕ → Body V
  readiness : ℕ → ReadinessResponse → Body V
  page : Text → Body V

-- What becomes of a request that a handler gets: input that does not fit, a panic, or a response.
pub data Response (V : Type 0) : Type 0 where
  bad_input crashed : Response V
  responded : Result HttpError (Body V) → Response V

module _ (p : Platform) (env : Env) (st : JtiStore) (source : KeySource p) where
  open p use {JsonValue}

  -- Whether the key service answers, and whether the snapshot in memory serves.
  abbrev pub KeyProbe : Type 0
  KeyProbe = ℕ → source.State → Bool × Bool × source.State

  abbrev pub Here : Type 0
  Here = World st.State source.State

  -- The state of the whole process but the limits: the world of the tokens and the counters.
  pub record Process : Type 0 where
    pub world : Here
    pub counted : List Metric

  abbrev with_body : {A : Type 0} → (A → Body JsonValue) → Result HttpError A → Response JsonValue
  with_body f (ok a) = responded (ok (f a))
  with_body f (err e) = responded (err e)

  abbrev as_response :
      {A : Type 0} → (A → Body JsonValue) → Option (Result HttpError A) → Response JsonValue
  as_response f none = crashed
  as_response f (some r) = with_body f r

  -- The response and the process after a handler.
  abbrev pub after :
      {A : Type 0}
      → (A → Body JsonValue)
      → List Metric
      → Answer st.State source.State A
      → Response JsonValue × Process
  after f counted (answer, w, events) =
      (as_response f answer, record { world = w; counted = counted ++ events })

  abbrev run_handler :
      {A B : Type 0}
      → (A → Body JsonValue)
      → Option B
      → (B → Here → Answer st.State source.State A)
      → Process
      → Response JsonValue × Process
  run_handler f none handler s = (bad_input, s)
  run_handler f (some b) handler s = after f s.counted (handler b s.world)

  unfoldable pub ask_readiness : KeyProbe → Process → Response JsonValue × Process
  unfolding readyz
  ask_readiness probe s =
      let w = s.world in
      let (pinged, store') = st.ping (p.clock w.reads) w.store in
      let (jwks_live, snapshot, keys') = probe (p.clock (w.reads + 1)) w.keys in
      let (status, body) = readyz (is_ok pinged) jwks_live snapshot in
      (
        responded (ok (readiness status body)),
        record s { world = record w { store = store'; keys = keys'; reads = w.reads + 2 } },
      )

  unfoldable pub handle :
      Extract JsonValue → KeyProbe → Endpoint → Incoming → Process → Response JsonValue × Process
  unfolding create_token verify_handler refresh_token revoke_token revoke_subject_tokens
      ask_readiness
  handle x probe Endpoint.create_token req s =
      run_handler issued (x.token_request req) (λ b. create_token p env st source b req.host) s
  handle x probe Endpoint.verify_token req s =
      run_handler verified (x.verify_request req) (λ b. verify_handler p env st source b req.host) s
  handle x probe Endpoint.refresh_token req s =
      run_handler issued (x.refresh_request req) (λ b. refresh_token p env st source b req.host) s
  handle x probe Endpoint.revoke_token req s =
      run_handler (λ _. revoked) (x.segment req) (λ jti. revoke_token p env st source jti) s
  handle x probe Endpoint.revoke_subject_tokens req s =
      run_handler revoked_subject (x.segment req) (λ sub. revoke_subject_tokens p env st source sub)
        s
  handle x probe Endpoint.metrics req s = (responded (ok (page (x.exposition s.counted))), s)
  handle x probe Endpoint.openapi_spec req s = (responded (ok (page x.specification)), s)
  handle x probe Endpoint.livez req s = (responded (ok (page [])), s)
  handle x probe Endpoint.readyz req s = ask_readiness probe s
