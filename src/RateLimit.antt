-- ===== src/RateLimit.antt =====
-- rate_limit.rs: the key of the per-IP limit, the quotas, the configuration and the middleware.
pub mod Address
pub mod Client
pub mod Limiter
pub mod Trust
pub mod Bounds
