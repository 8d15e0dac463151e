-- ===== src/Telemetry/Otel.antt =====
-- tracing_otel.rs: where traces and logs are sent, and whether. Building an exporter is the crate's: a
-- parameter gives its error, if it fails.
use jwt_service_app.Base.{
  Bool, true, false, ◌||◌, Option, none, some, [], ◌∷◌, ◌++◌, is_empty, ◌==◌, not, if◌then◌else◌,
  ◌≡◌, refl,
}
use mathlib.Core.List.{reverse}
use jwt_service_app.Base.Text.{Text, codes, text_eq, trim, to_ascii_lowercase}
use jwt_service_app.Env.{Env, unwrap_or}

-- A value that is not blank, trimmed.
abbrev pub present : Option Text → Option Text
present none = none
present (some s) = if is_empty (trim s) then none else some (trim s)

unfoldable pub drop_slashes : Text → Text
drop_slashes [] = []
drop_slashes (c ∷ s) = if c == b'/' then drop_slashes s else c ∷ s

-- `trim_end_matches('/')`
unfoldable pub trim_end_slashes : Text → Text
unfolding drop_slashes
trim_end_slashes s = reverse (drop_slashes (reverse s))

unfoldable pub signal_endpoint : Option Text → Option Text → Text → Option Text
unfolding trim_end_slashes trim
signal_endpoint signal base path = elim (present signal) [
  | some url ↦ some url
  | none ↦ elim (present base) [ none ↦ none | some url ↦ some (trim_end_slashes url ++ path) ]
]

-- `env_bool` of tracing_otel.rs and sentry_glitchtip.rs: what is set is true only as one of three words.
unfoldable pub env_flag : Env → Text → Bool → Bool
env_flag env key default = elim (env key) [
  | none ↦ default
  | some v ↦
      let low = to_ascii_lowercase (trim v) in
      text_eq low (codes "true") || (text_eq low (codes "1") || text_eq low (codes "yes"))
]

pub data Status : Type 0 where
  disabled : Status
  enabled : Text → Text → Status
  failed : Text → Text → Status

pub data LogsStatus : Type 0 where
  logs_disabled no_endpoint : LogsStatus
  logs_enabled : Text → LogsStatus
  logs_failed : Text → Text → LogsStatus

abbrev service_name : Env → Text
service_name env = unwrap_or (codes "jwt-service-app") (env (codes "OTEL_SERVICE_NAME"))

-- The error of the exporter that is built for an endpoint, if it cannot be built.
module _ (build_error : Text → Option Text) where
  -- Whether there is a provider, and the status.
  unfoldable pub init_tracer_provider : Env → Bool × Status
  unfolding signal_endpoint
  init_tracer_provider env =
      elim (signal_endpoint (env (codes "OTEL_EXPORTER_OTLP_TRACES_ENDPOINT"))
        (env (codes "OTEL_EXPORTER_OTLP_ENDPOINT")) (codes "/v1/traces")) [
          | none ↦ (false, disabled)
          | some endpoint ↦ elim (build_error endpoint) [
            | some error ↦ (false, failed endpoint error)
            | none ↦ (true, enabled endpoint (service_name env))
          ]
        ]

  unfoldable pub init_logger_provider : Env → Bool × LogsStatus
  unfolding signal_endpoint env_flag
  init_logger_provider env =
      if not (env_flag env (codes "OTEL_LOGS_ENABLED") false)
      then (false, logs_disabled)
      else elim (signal_endpoint (env (codes "OTEL_EXPORTER_OTLP_LOGS_ENDPOINT"))
          (env (codes "OTEL_EXPORTER_OTLP_ENDPOINT")) (codes "/v1/logs")) [
            | none ↦ (false, no_endpoint)
            | some endpoint ↦ elim (build_error endpoint) [
              | some error ↦ (false, logs_failed endpoint error)
              | none ↦ (true, logs_enabled endpoint)
            ]
          ]

base_test :
    signal_endpoint none (some (codes " http://c:4318// ")) (codes "/v1/logs")
    ≡ some (codes "http://c:4318/v1/logs")
unfolding signal_endpoint
base_test = refl

signal_test :
    signal_endpoint (some (codes "http://c/x/")) (some (codes "http://d")) (codes "/v1/logs")
    ≡ some (codes "http://c/x/")
unfolding signal_endpoint
signal_test = refl
