-- ===== src/Telemetry.antt =====
-- logging.rs, metrics.rs, tracing_otel.rs and sentry_glitchtip.rs: what they decide. What they send is output.
pub mod RequestLog
pub mod Otel
pub mod GlitchTip
pub mod Subscriber
pub mod OptIn
pub mod Metrics
pub mod RequestIds
pub mod Propagation
pub mod Traces
