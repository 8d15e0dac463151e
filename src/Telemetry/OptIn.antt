-- ===== src/Telemetry/OptIn.antt =====
-- logging.rs, tracing_otel.rs and sentry_glitchtip.rs: what leaves the process.
use jwt_service_app.Base.{
  ◌≡◌, ◌⊎◌, Bool, true, false, Option, none, some, List, ◌∷◌, ◌++◌, any, is_empty,
}
use jwt_service_app.Base.Text.{Text, codes, trim, to_ascii_lowercase}
use jwt_service_app.Env.{Env}
use jwt_service_app.Telemetry.Otel.{enabled, logs_enabled, trim_end_slashes}
use jwt_service_app.Telemetry.GlitchTip
use jwt_service_app.Telemetry.GlitchTip.{Rates, ClientOptions}
use jwt_service_app.Telemetry.Subscriber.{
  Format, SubscriberLayer, filter, fmt, otel, otel_logs, sentry, Installed, layer_if, sentry_layer,
}

-- A variable is set to a text, with blanks around, and not to blanks only.
abbrev pub Given : Env → Text → Text → Type 0
Given env name t =
    (value : Text) × (env name ≡ some value) × (is_empty (trim value) ≡ false) × (trim value ≡ t)

-- A variable is set to one of the three words that mean yes, in any case and with blanks around.
abbrev pub IsYes : Env → Text → Type 0
IsYes env name =
    (value : Text) × (env name ≡ some value)
    × ((to_ascii_lowercase (trim value) ≡ codes "true")
        ⊎ ((to_ascii_lowercase (trim value) ≡ codes "1")
            ⊎ (to_ascii_lowercase (trim value) ≡ codes "yes")))

-- A signal goes to the address of its own variable, or to its path below the common address.
abbrev pub SendsTo : Env → Text → Text → Text → Type 0
SendsTo env variable path url =
    Given env variable url
    ⊎ ((base : Text) × Given env (codes "OTEL_EXPORTER_OTLP_ENDPOINT") base
        × (url ≡ trim_end_slashes base ++ path))

abbrev pub is_otel : SubscriberLayer → Bool
is_otel otel = true
is_otel _ = false

abbrev pub is_otel_logs : SubscriberLayer → Bool
is_otel_logs otel_logs = true
is_otel_logs _ = false

abbrev pub is_sentry : SubscriberLayer → Bool
is_sentry (sentry logs) = true
is_sentry _ = false

module _ (valid : Text → Bool) (build_error : Text → Option Text) (f : Rates) (env : Env) where
  -- What is sent was asked for in the environment, and goes where the environment says; the layers
  -- that send are there exactly for the resources that are kept alive.
  pub record IsOptIn (i : Installed valid build_error f) : Type 0 where
    pub traces :
        (i.telemetry.tracer_provider ≡ false)
        ⊎ ((url name : Text) × (i.otel_status ≡ enabled url name)
            × SendsTo env (codes "OTEL_EXPORTER_OTLP_TRACES_ENDPOINT") (codes "/v1/traces") url)
    pub logs :
        (i.telemetry.logger_provider ≡ false)
        ⊎ (IsYes env (codes "OTEL_LOGS_ENABLED")
            × (url : Text) × (i.otel_logs_status ≡ logs_enabled url)
            × SendsTo env (codes "OTEL_EXPORTER_OTLP_LOGS_ENDPOINT") (codes "/v1/logs") url)
    pub errors :
        (i.telemetry.sentry_guard ≡ none)
        ⊎ ((options : ClientOptions f) × (i.telemetry.sentry_guard ≡ some options)
            × (Given env (codes "GLITCHTIP_DSN") options.dsn
                ⊎ Given env (codes "SENTRY_DSN") options.dsn))
    pub trace_layer : any is_otel i.layers ≡ i.telemetry.tracer_provider
    pub log_layer : any is_otel_logs i.layers ≡ i.telemetry.logger_provider
    pub error_layer :
        ((any is_sentry i.layers ≡ false) × (i.telemetry.sentry_guard ≡ none))
        ⊎ ((any is_sentry i.layers ≡ true)
            × ((options : ClientOptions f) × (i.telemetry.sentry_guard ≡ some options)))

  abbrev stacked :
      Text
      → Format
      → Bool
      → Bool
      → Option (ClientOptions f)
      → GlitchTip.Status
      → List SubscriberLayer
  stacked level format a b guard status =
      filter level
      ∷ fmt format
      ∷ (layer_if valid build_error f a otel
          ++ (layer_if valid build_error f b otel_logs
              ++ sentry_layer valid build_error f guard status))
