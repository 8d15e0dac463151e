-- ===== src/Telemetry/Metrics.antt =====
-- metrics.rs: what each event records. A sample is a counter that goes up by one, or a latency in
-- nanoseconds in a histogram; the recorder and its buckets are the crate's.
use jwt_service_app.Base.{ℕ, Bool, List, [], ◌∷◌, if◌then◌else◌}
use jwt_service_app.Base.Text.{Text, codes}
use jwt_service_app.Auth.Hotp.{padded}
use jwt_service_app.Counters.{
  Metric, token_issued, token_revoked, token_verified, rate_limited, auth_denied,
}

pub data Sample : Type 0 where
  counter : Text → List (Text × Text) → Sample
  histogram : Text → List (Text × Text) → ℕ → Sample

abbrev bool_text : Bool → Text
bool_text b = if b then codes "true" else codes "false"

-- A status of HTTP has three digits.
unfoldable pub record_http_request : Text → Text → ℕ → ℕ → List Sample
unfolding padded
record_http_request method endpoint status latency =
    counter (codes "http_requests_total") (
      (codes "method", method)
      ∷ (codes "endpoint", endpoint)
      ∷ (codes "status", padded 3 status)
      ∷ [])
    ∷ histogram (codes "http_request_duration_seconds")
        ((codes "method", method) ∷ (codes "endpoint", endpoint) ∷ []) latency
    ∷ []

unfoldable pub record_token_issued : Sample
record_token_issued = counter (codes "jwt_tokens_issued_total") []

unfoldable pub record_token_revoked : Sample
record_token_revoked = counter (codes "jwt_tokens_revoked_total") []

unfoldable pub record_token_verified : Bool → Sample
record_token_verified success =
    counter (codes "jwt_tokens_verified_total")
      ((codes "result", (if success then codes "success" else codes "failure")) ∷ [])

unfoldable pub record_auth_denied : Text → Sample
record_auth_denied level = counter (codes "jwt_auth_denied_total") ((codes "level", level) ∷ [])

unfoldable pub record_rate_limited : Sample
record_rate_limited = counter (codes "jwt_rate_limit_exceeded_total") []

unfoldable pub record_jwks_request : Text → Bool → ℕ → Sample
record_jwks_request operation success latency =
    histogram (codes "jwks_request_duration_seconds")
      ((codes "operation", operation) ∷ (codes "success", bool_text success) ∷ []) latency

unfoldable pub record_jwks_cache : Text → Sample
record_jwks_cache result = counter (codes "jwks_cache_total") ((codes "result", result) ∷ [])

unfoldable pub record_redis_command : Text → Bool → ℕ → Sample
record_redis_command command success latency =
    histogram (codes "redis_command_duration_seconds")
      ((codes "command", command) ∷ (codes "success", bool_text success) ∷ []) latency

-- The sample of an event that a handler or a layer counts.
unfoldable pub sample_of : Metric → Sample
unfolding record_token_issued record_token_revoked record_token_verified record_rate_limited
    record_auth_denied
sample_of token_issued = record_token_issued
sample_of token_revoked = record_token_revoked
sample_of (token_verified success) = record_token_verified success
sample_of rate_limited = record_rate_limited
sample_of (auth_denied level) = record_auth_denied level
