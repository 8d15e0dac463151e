-- ===== src/Token/Platform.antt =====
-- What the token code takes from outside the repository (serde_json, base64, openssl, chrono, uuid),
-- as a parameter, and the data types that it works on. A byte string is a list of numbers.
use jwt_service_app.Base.{ℕ, ◌≤◌, ◌≡◌, Bool, true, Option, some, List}
use jwt_service_app.Base.Text.{Text}

pub data JwtError : Type 0 where
  unprocessable_entity store_error bad_signature not_valid broken key_error serialization : JwtError

-- `V` is `serde_json::Value`; a `Map` is an association list.
abbrev pub JsonMap : Type 0 → Type 0
JsonMap V = List (Text × V)

pub record TokenClaims (V : Type 0) : Type 0 where
  pub iss : Text
  pub sub : Text
  pub aud : List Text
  pub exp : ℕ
  pub iat : ℕ
  pub nbf : ℕ
  pub jti : Text
  pub extra : JsonMap V

pub record TokenHeaders : Type 0 where
  pub alg : Text
  pub kid : Text
  pub typ : Text
  pub jku : Option Text

-- `MessageDigest`
pub data Digest : Type 0 where
  sha256 sha384 sha512 : Digest

pub record Platform : Type 1 where
  pub JsonValue : Type 0
  -- the length of `serde_json::to_vec`
  pub map_size : JsonMap JsonValue → Option ℕ
  pub print_claims : TokenClaims JsonValue → Option Text
  pub parse_claims : Text → Option (TokenClaims JsonValue)
  pub print_headers : TokenHeaders → Option Text
  pub parse_headers : Text → Option TokenHeaders
  -- whether a map comes back from JSON as it was printed: it does with its entries in the order of a
  -- map, and without floating point numbers, whose digits may change
  pub exact : JsonMap JsonValue → Bool
  -- base64url without padding
  pub encode : List ℕ → Text
  pub decode : Text → Option (List ℕ)
  pub utf8 : Text → List ℕ
  pub from_utf8 : List ℕ → Option Text
  -- openssl; no digest is `new_without_digest`
  pub PrivateKey : Type 0
  pub PublicKey : Type 0
  pub sign : Option Digest → PrivateKey → List ℕ → Option (List ℕ)
  pub verify : Option Digest → PublicKey → List ℕ → List ℕ → Option Bool
  -- the UUID of each draw, and the Unix time at each reading of the clock
  pub uuid : ℕ → Text
  pub clock : ℕ → ℕ
  -- the Unix times that a `DateTime<Utc>` reaches, after and before 1970
  pub latest : ℕ
  pub earliest : ℕ

-- A signature made with a private key is accepted by its public key, under the same digest.
abbrev pub KeyPair : (p : Platform) → p.PrivateKey → p.PublicKey → Type 0
KeyPair p private public =
    (digest : Option Digest) (message signature : List ℕ)
    → p.sign digest private message ≡ some signature
    → p.verify digest public signature message ≡ some true

-- The clock does not run backwards.
abbrev pub IsMonotone : Platform → Type 0
IsMonotone p = (m n : ℕ) → m ≤ n → p.clock m ≤ p.clock n
