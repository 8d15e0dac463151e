-- ===== src/Tests.antt =====
-- Runs of the modelled code at concrete inputs.
pub mod Samples
pub mod RedisTests
pub mod ServerTests
pub mod TokenTests
pub mod AuthTests
pub mod RateLimitTests
pub mod JwksTests
pub mod RoundTripTests
pub mod RotationTests
pub mod RouteTests
pub mod ApiDocTests
pub mod LifecycleTests
pub mod TelemetryTests
pub mod TraceTests
