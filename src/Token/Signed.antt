-- ===== src/Token/Signed.antt =====
-- models/jwt.rs: `JsonWebToken`, signing (`to_string`) and verification (`from_string`).
use jwt_service_app.Base.{
  ℕ, ◌+◌, Bool, true, ◌||◌, Option, none, some, List, ◌∷◌, ◌++◌, Result, ok, err, ok_or, and_then,
  if◌then◌else◌,
}
use jwt_service_app.Base.Text.{Text, codes, text_eq, split}
use jwt_service_app.Env.{Env}
use jwt_service_app.Store.{JtiStore}
use jwt_service_app.Token.Platform.{
  Platform, JwtError, bad_signature, broken, not_valid, TokenClaims, TokenHeaders, Digest, sha256,
  sha384, sha512,
}
use jwt_service_app.Token.Claims.{claims_from_base64, claims_to_base64, is_verify}
use jwt_service_app.Token.Headers.{headers_from_base64, headers_to_base64, headers_valid}
use jwt_service_app.Token.Run.{Run, done, failed, ◌>>=◌, pure, fail, lift}

-- The digest under which `to_string` signs.
unfoldable pub signing_digest : Text → Option Digest
signing_digest alg =
    if text_eq alg (codes "RS256") || text_eq alg (codes "ES256")
    then some sha256
    else if text_eq alg (codes "RS384") || text_eq alg (codes "ES384")
    then some sha384
    else if text_eq alg (codes "RS512") || text_eq alg (codes "ES512")
    then some sha512
    else none

-- The digest under which `from_string` verifies.
unfoldable pub verifying_digest : Text → Option Digest
verifying_digest alg =
    if text_eq alg (codes "RS256") || text_eq alg (codes "ES256")
    then some sha256
    else if text_eq alg (codes "RS384") || text_eq alg (codes "ES384")
    then some sha384
    else if text_eq alg (codes "RS512") || text_eq alg (codes "ES512")
    then some sha512
    else none

-- `format!("{}.{}", a, b)`
abbrev pub dotted : Text → Text → Text
dotted a b = a ++ (b'.' ∷ b)

-- The first three parts between dots; any further part is ignored.
abbrev pub first_three : List Text → Option (Text × Text × Text)
first_three (h ∷ c ∷ s ∷ more) = some (h, c, s)
first_three _ = none

unfoldable pub segments : Text → Option (Text × Text × Text)
segments token = first_three (split b'.' token)

-- What the token code asks of `KeyManager`: the key that signs, with its `kid`, and the public key
-- of a `kid`. An error of the key source has one meaning here, so it is left out.
pub record KeySource (p : Platform) : Type 1 where
  pub State : Type 0
  pub get_private_key : ℕ → State → Option (Text × p.PrivateKey) × State
  pub get_public_key : Text → ℕ → State → Option p.PublicKey × State

module _ (p : Platform) (env : Env) where
  open p use {JsonValue, PrivateKey, PublicKey}

  unfoldable pub to_string :
      TokenHeaders → TokenClaims JsonValue → PrivateKey → Result JwtError Text
  unfolding signing_digest
  to_string headers claims key = and_then (headers_to_base64 p env headers) (λ h.
      and_then (claims_to_base64 p env claims) (λ c.
        and_then
          (ok_or bad_signature (p.sign (signing_digest headers.alg) key (p.utf8 (dotted h c))))
          (λ signature. ok (dotted (dotted h c) (p.encode signature)))))

  -- A signature that does not verify, or whose verification does not run.
  abbrev pub accepted : Option Bool → Result JwtError (Unit {0})
  accepted (some true) = ok tt
  accepted _ = err bad_signature

  module _ (st : JtiStore) (source : KeySource p) where
    abbrev pub TokenRun : Type 0 → Type 0
    TokenRun A = Run st.State source.State A

    abbrev pub public_key : Text → TokenRun PublicKey
    public_key kid w =
        let (key, s) = source.get_public_key kid (p.clock w.reads) w.keys in
        elim key [
          | some k ↦ (done k, record w { keys = s; reads = w.reads + 1 })
          | none ↦ (failed bad_signature, record w { keys = s; reads = w.reads + 1 })
        ]

    abbrev pub check_claims :
        Text
        → Text
        → TokenHeaders
        → TokenClaims JsonValue
        → TokenRun (TokenHeaders × TokenClaims JsonValue)
    check_claims issuer audience headers claims =
        if headers_valid p env headers
        then (is_verify p env st claims issuer audience >>= λ valid.
            if valid then pure (headers, claims) else fail not_valid)
        else fail not_valid

    abbrev pub check_signature :
        Text × Text × Text → TokenHeaders → PublicKey → Result JwtError (Unit {0})
    check_signature (h, c, s) headers key = and_then (ok_or broken (p.decode s)) (λ signature.
        accepted (p.verify (verifying_digest headers.alg) key signature (p.utf8 (dotted h c))))

    abbrev pub with_key :
        Text
        → Text
        → Text × Text × Text
        → TokenHeaders
        → PublicKey
        → TokenRun (TokenHeaders × TokenClaims JsonValue)
    with_key issuer audience parts headers key = lift (check_signature parts headers key) >>= λ _.
        lift (claims_from_base64 p env parts.1) >>= check_claims issuer audience headers

    abbrev pub with_headers :
        Text
        → Text
        → Text × Text × Text
        → TokenHeaders
        → TokenRun (TokenHeaders × TokenClaims JsonValue)
    with_headers issuer audience parts headers =
        public_key headers.kid >>= with_key issuer audience parts headers

    abbrev pub with_parts :
        Text → Text → Text × Text × Text → TokenRun (TokenHeaders × TokenClaims JsonValue)
    with_parts issuer audience parts =
        lift (headers_from_base64 p env parts.0) >>= with_headers issuer audience parts

    -- The parts, the header, the key, the signature, and then the claims.
    unfoldable pub from_string :
        Text → Text → Text → TokenRun (TokenHeaders × TokenClaims JsonValue)
    unfolding segments verifying_digest headers_valid is_verify
    from_string token issuer audience =
        lift (ok_or broken (segments token)) >>= with_parts issuer audience
