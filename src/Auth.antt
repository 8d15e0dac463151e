-- ===== src/Auth.antt =====
-- auth.rs: the access levels, their validators, the configuration and the middleware.
pub mod Base32
pub mod Hotp
pub mod Validators
pub mod Config
pub mod Middleware
pub mod Totp
pub mod Codes
pub mod Replay
pub mod Setup
