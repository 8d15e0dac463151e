-- ===== src/Auth/Codes.antt =====
-- auth.rs `hotp`: the form of a code, and that the truncation stays within the digest.
use jwt_service_app.Base.{ℕ, Bool, ◌&&◌, leb}
use jwt_service_app.Base.Text.{Text}

abbrev is_digit : ℕ → Bool
is_digit c = leb b'0' c && leb c b'9'
