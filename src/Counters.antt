-- ===== src/Counters.antt =====
-- metrics.rs: the events that the handlers and the layers around them count. Telemetry/Metrics has their
-- samples.
use jwt_service_app.Base.{Bool}
use jwt_service_app.Base.Text.{Text}

pub data Metric : Type 0 where
  token_issued token_revoked rate_limited : Metric
  token_verified : Bool → Metric
  auth_denied : Text → Metric
