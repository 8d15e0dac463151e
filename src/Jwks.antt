-- ===== src/Jwks.antt =====
-- jwk.rs and key.rs: the client of the key service with its cache, and the key manager.
pub mod Service
pub mod Cache
pub mod PrivateKeys
pub mod Manager
pub mod Requests
pub mod Quiet
pub mod Settled
pub mod SingleFlight
pub mod Answers
pub mod Outage
