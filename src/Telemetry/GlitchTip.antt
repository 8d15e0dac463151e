-- ===== src/Telemetry/GlitchTip.antt =====
-- sentry_glitchtip.rs: whether the integration is on, with which options, and which events go where.
-- Numbers of type `f32` are a parameter.
use jwt_service_app.Base.{Bool, false, Option, none, some, List, [], ◌∷◌, if◌then◌else◌}
use jwt_service_app.Base.Text.{Text, codes, trim}
use jwt_service_app.Env.{Env, unwrap_or}
use jwt_service_app.Telemetry.Otel.{present, env_flag}

-- The operations on `f32` that the source uses.
pub record Rates : Type 1 where
  pub F32 : Type 0
  pub zero : F32
  pub parse : Text → Option F32
  pub is_finite : F32 → Bool
  pub clamp_unit : F32 → F32
  pub is_positive : F32 → Bool

pub data Status : Type 0 where
  disabled : Status
  enabled : Bool → Bool → Status

unfoldable pub logs_enabled : Status → Bool
logs_enabled disabled = false
logs_enabled (enabled performance logs) = logs

abbrev first_present : Option Text → Option Text → Option Text
first_present (some dsn) other = some dsn
first_present none other = other

unfoldable pub read_dsn : Env → Option Text
unfolding trim
read_dsn env =
    first_present (present (env (codes "GLITCHTIP_DSN"))) (present (env (codes "SENTRY_DSN")))

module _ (f : Rates) where
  abbrev parse_trimmed : Option Text → Option f.F32
  parse_trimmed none = none
  parse_trimmed (some v) = f.parse (trim v)

  abbrev finite : Option f.F32 → Option f.F32
  finite none = none
  finite (some v) = if f.is_finite v then some (f.clamp_unit v) else none

  unfoldable pub env_f32 : Env → Text → f.F32 → f.F32
  env_f32 env key default = unwrap_or default (finite (parse_trimmed (env key)))

  -- The options of the client; a rate is set only if it is above zero.
  pub record ClientOptions : Type 0 where
    pub dsn : Text
    pub environment : Option Text
    pub traces_sample_rate : Option f.F32

  abbrev pub sample_rate : Env → f.F32
  sample_rate env = env_f32 env (codes "GLITCHTIP_TRACES_SAMPLE_RATE") f.zero

  abbrev pub options_of : Env → Text → ClientOptions
  options_of env dsn = record {
    dsn = dsn;
    environment = env (codes "GLITCHTIP_ENVIRONMENT");
    traces_sample_rate = if f.is_positive (sample_rate env) then some (sample_rate env) else none;
  }

  unfoldable pub init : Env → Option ClientOptions × Status
  unfolding read_dsn env_f32 env_flag
  init env = elim (read_dsn env) [
    | none ↦ (none, disabled)
    | some dsn ↦ (
      some (options_of env dsn),
      enabled (f.is_positive (sample_rate env))
          (env_flag env (codes "GLITCHTIP_ENABLE_LOGS") false),
    )
  ]

pub data Level : Type 0 where
  error warn info debug trace : Level

pub data Channel : Type 0 where
  event log breadcrumb : Channel

-- The filter of `layer`: the channels of an event; none is `EventFilter::Ignore`.
unfoldable pub event_filter : Bool → Level → List Channel
event_filter logs error = event ∷ []
event_filter logs warn = if logs then log ∷ breadcrumb ∷ [] else breadcrumb ∷ []
event_filter logs info = if logs then log ∷ breadcrumb ∷ [] else breadcrumb ∷ []
event_filter logs debug = if logs then log ∷ [] else []
event_filter logs trace = []
