-- ===== src/Token/Serde.antt =====
-- What models/jwt.rs relies on in serde_json and base64 when a token is read that was printed before.
use jwt_service_app.Base.{ℕ, ◌≡◌, true, false, some, List, all, any, ◌==◌, not}
use jwt_service_app.Base.Text.{Text, contains}
use jwt_service_app.Token.Platform.{Platform, TokenClaims, TokenHeaders}
use jwt_service_app.Token.Claims.{reserved_claims}

-- Documented behaviour: what is printed and encoded is read back, and a segment of base64url holds no
-- dot. Claims are read back if their own map is, and if it repeats none of the names of the fields
-- that it is flattened into.
pub record ReadsBack (p : Platform) : Type 0 where
  pub parse_print_claims :
      (c : TokenClaims p.JsonValue) (t : Text)
      → p.exact c.extra ≡ true
      → any (λ claim. contains reserved_claims claim.0) c.extra ≡ false
      → p.print_claims c ≡ some t
      → p.parse_claims t ≡ some c
  pub parse_print_headers :
      (h : TokenHeaders) (t : Text) → p.print_headers h ≡ some t → p.parse_headers t ≡ some h
  pub decode_encode : (bytes : List ℕ) → p.decode (p.encode bytes) ≡ some bytes
  pub encode_no_dot : (bytes : List ℕ) → all (λ c. not (c == b'.')) (p.encode bytes) ≡ true
  pub from_utf8_utf8 : (t : Text) → p.from_utf8 (p.utf8 t) ≡ some t
