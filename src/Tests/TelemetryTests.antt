-- ===== src/Tests/TelemetryTests.antt =====
-- Runs of logging.rs.
use jwt_service_app.Env.{Env}
use jwt_service_app.Telemetry.GlitchTip.{Rates}
use jwt_service_app.Base.{
  ℕ, ◌+◌, Result, ok, ◌≡◌, refl, ◌⊎◌, Bool, true, ◌&&◌, none, some, all, leb, ltb, if◌then◌else◌,
  false,
}
use jwt_service_app.Base.Text.{Text, codes, text_eq}
use jwt_service_app.Auth.Validators.{Headers}
use jwt_service_app.Telemetry.RequestLog.{is_valid_request_id, incoming_id, call}
use jwt_service_app.Telemetry.RequestIds.{call-is_valid_request_id}

abbrev one_uuid : ℕ → Text
one_uuid n = codes "0f-1"

abbrev visible_only : Text → Bool
visible_only t = all (λ c. leb 32 c && ltb c 127) t

-- An identifier with a line break.
abbrev forged : Headers
forged name = if text_eq name (codes "x-request-id") then some (codes "a\nb") else none

abbrev counter : ℕ → Result (Unit {0}) Text × ℕ
counter n = (ok (codes "done"), n + 1)

call-is_valid_request_id_example :
    (id : Text) × ((call one_uuid visible_only forged counter (5, 8)).0
      ≡ ok (codes "done", some id))
    × (is_valid_request_id id ≡ true)
    × ((incoming_id forged ≡ some id) ⊎ ((incoming_id forged ≡ none) × (id ≡ one_uuid 5)))
    × ((call one_uuid visible_only forged counter (5, 8)).2 ≡ 9)
unfolding is_valid_request_id
call-is_valid_request_id_example =
    call-is_valid_request_id one_uuid visible_only forged counter 5 8 (λ n. refl) (λ t h. h)

-- The forged identifier is replaced.
replaced :
    (call one_uuid visible_only forged counter (5, 8)).0 ≡ ok (codes "done", some (codes "0f-1"))
unfolding call text_eq
replaced = refl

-- Numbers with one value.
abbrev no_rates : Rates
no_rates = record {
  F32 = Unit;
  zero = tt;
  parse = λ t. some tt;
  is_finite = λ x. true;
  clamp_unit = λ x. x;
  is_positive = λ x. false;
}

-- A collector for the traces and for the logs, and no DSN.
abbrev collector : Env
collector name =
    if text_eq name (codes "OTEL_EXPORTER_OTLP_ENDPOINT")
    then some (codes "http://c:4318")
    else if text_eq name (codes "OTEL_LOGS_ENABLED")
    then some (codes "true")
    else none
