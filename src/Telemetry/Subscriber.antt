-- ===== src/Telemetry/Subscriber.antt =====
-- logging.rs: `init_subscriber`, the layers of the global subscriber and the resources that live as
-- long as the process. Whether the crate takes the directives of `RUST_LOG`, and whether an exporter
-- can be built, are parameters. What a layer writes is output.
use jwt_service_app.Base.{Bool, Option, none, some, List, [], ◌∷◌, ◌++◌, if◌then◌else◌}
use jwt_service_app.Base.Text.{Text, codes, text_eq, to_ascii_lowercase}
use jwt_service_app.Env.{Env, unwrap_or}
use jwt_service_app.Telemetry.Otel.{Status, LogsStatus, init_tracer_provider, init_logger_provider}
use jwt_service_app.Telemetry.GlitchTip
use jwt_service_app.Telemetry.GlitchTip.{Rates, ClientOptions, read_dsn, logs_enabled}

pub data Format : Type 0 where
  json pretty : Format

-- A layer over the registry; `sentry` has whether logs are sent.
pub data SubscriberLayer : Type 0 where
  filter : Text → SubscriberLayer
  fmt : Format → SubscriberLayer
  otel otel_logs : SubscriberLayer
  sentry : Bool → SubscriberLayer

-- `env::var("LOG_FORMAT")`: only ASCII letters have the letters of "json" as lower case.
unfoldable pub log_format : Env → Format
log_format env =
    if text_eq (to_ascii_lowercase (unwrap_or [] (env (codes "LOG_FORMAT")))) (codes "json")
    then json
    else pretty

abbrev default_filter : Text
default_filter = codes "jwt_service_app=info"

abbrev parsed_or_default : (Text → Bool) → Option Text → Text
parsed_or_default valid none = default_filter
parsed_or_default valid (some directives) = if valid directives then directives else default_filter

-- `EnvFilter::try_from_default_env()`, or the default.
unfoldable pub env_filter : (Text → Bool) → Env → Text
env_filter valid env = parsed_or_default valid (env (codes "RUST_LOG"))

module _ (valid : Text → Bool) (build_error : Text → Option Text) (f : Rates) where
  -- The providers, if they are on, and the options of the client that the guard keeps alive.
  pub record Telemetry : Type 0 where
    pub tracer_provider : Bool
    pub logger_provider : Bool
    pub sentry_guard : Option (ClientOptions f)

  -- What is installed, what is logged about it then, and what is returned.
  pub record Installed : Type 0 where
    pub layers : List SubscriberLayer
    pub otel_status : Status
    pub otel_logs_status : LogsStatus
    pub sentry_status : GlitchTip.Status
    pub telemetry : Telemetry

  abbrev pub layer_if : Bool → SubscriberLayer → List SubscriberLayer
  layer_if on layer = if on then layer ∷ [] else []

  abbrev pub sentry_layer : Option (ClientOptions f) → GlitchTip.Status → List SubscriberLayer
  sentry_layer none status = []
  sentry_layer (some options) status = sentry (logs_enabled status) ∷ []

  unfoldable pub subscriber : Env → Installed
  unfolding log_format env_filter init_tracer_provider init_logger_provider GlitchTip.init
      logs_enabled
  subscriber env =
      let (provider, otel_status) = init_tracer_provider build_error env in
      let (logger_provider, otel_logs_status) = init_logger_provider build_error env in
      let (sentry_guard, sentry_status) = GlitchTip.init f env in
      record {
        layers =
            filter (env_filter valid env)
            ∷ fmt (log_format env)
            ∷ (layer_if provider otel
                ++ (layer_if logger_provider otel_logs ++ sentry_layer sentry_guard sentry_status));
        otel_status = otel_status;
        otel_logs_status = otel_logs_status;
        sentry_status = sentry_status;
        telemetry = record {
          tracer_provider = provider;
          logger_provider = logger_provider;
          sentry_guard = sentry_guard;
        };
      }

  -- A panic, if a global subscriber is there already.
  unfoldable pub init_subscriber : Bool → Env → Option Installed
  unfolding subscriber
  init_subscriber installed env = if installed then none else some (subscriber env)
