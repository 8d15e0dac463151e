-- ===== src/Token/Headers.antt =====
-- models/jwt.rs: `TokenHeaders`.
use jwt_service_app.Base.{
  Bool, true, false, ◌&&◌, Option, none, some, List, [], ◌∷◌, Result, ok, ok_or, and_then,
}
use jwt_service_app.Base.Text.{Text, codes, text_eq, contains}
use jwt_service_app.Env.{Env, unwrap_or}
use jwt_service_app.Token.Platform.{Platform, JwtError, broken, serialization, TokenHeaders}

-- `SUPPORTED_ALGORITHMS` of key.rs
abbrev pub supported_algorithms : List Text
supported_algorithms =
    codes "RS256"
    ∷ codes "RS384"
    ∷ codes "RS512"
    ∷ codes "ES256"
    ∷ codes "ES384"
    ∷ codes "ES512"
    ∷ codes "EdDSA"
    ∷ []

abbrev pub same_jku : Option Text → Option Text → Bool
same_jku none none = true
same_jku (some a) (some b) = text_eq a b
same_jku _ _ = false

module _ (p : Platform) (env : Env) where
  -- `TokenHeaders::create_new`
  unfoldable pub headers_for : Text → TokenHeaders
  headers_for kid = record {
    alg = unwrap_or (codes "RS256") (env (codes "TOKEN_ALGORITHM"));
    kid = kid;
    typ = codes "JWT";
    jku = env (codes "TOKEN_JKU");
  }

  -- `TokenHeaders::is_verify`
  unfoldable pub headers_valid : TokenHeaders → Bool
  headers_valid h =
      contains supported_algorithms h.alg
      && same_jku h.jku (env (codes "TOKEN_JKU"))
      && text_eq h.typ (codes "JWT")

  unfoldable pub headers_from_base64 : Text → Result JwtError TokenHeaders
  headers_from_base64 segment = and_then (ok_or broken (p.decode segment)) (λ bytes.
      and_then (ok_or broken (p.from_utf8 bytes)) (λ json. ok_or broken (p.parse_headers json)))

  unfoldable pub headers_to_base64 : TokenHeaders → Result JwtError Text
  headers_to_base64 h =
      and_then (ok_or serialization (p.print_headers h)) (λ json. ok (p.encode (p.utf8 json)))
