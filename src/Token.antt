-- ===== src/Token.antt =====
-- models/jwt.rs and jwt.rs: the token and the operations of `JwtManager`.
pub mod Platform
pub mod Claims
pub mod Serde
pub mod Headers
pub mod Run
pub mod Signed
pub mod Inversion
pub mod Soundness
pub mod Issuance
pub mod RoundTrip
