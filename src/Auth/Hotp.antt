-- ===== src/Auth/Hotp.antt =====
-- auth.rs: `digest_by_name` and `hotp`. The HMAC of openssl is a parameter.
use Prim.Native.Nat.{bit_and, bit_or}
use jwt_service_app.Base.{
  ℕ, zero, suc, ◌+◌, ◌-◌, ◌*◌, ◌/◌, ◌%◌, ◌^◌, ◌||◌, ◌==◌, Option, none, some, List, [], ◌∷◌, ◌++◌,
  length, get_elem?, if◌then◌else◌,
}
use jwt_service_app.Base.Text.{Text, codes, text_eq, trim, to_ascii_uppercase}

pub data TotpDigest : Type 0 where
  sha1 sha256 sha512 : TotpDigest

unfoldable pub digest_by_name : Text → TotpDigest
digest_by_name name =
    let upper = to_ascii_uppercase (trim name) in
    if text_eq upper (codes "SHA256") || text_eq upper (codes "SHA-256")
    then sha256
    else if text_eq upper (codes "SHA512") || text_eq upper (codes "SHA-512")
    then sha512
    else sha1

-- The HMAC of a message under a secret; none if openssl fails.
abbrev pub Hmac : Type 0
Hmac = TotpDigest → List ℕ → List ℕ → Option (List ℕ)

-- `u64::to_be_bytes`
unfoldable pub be_bytes : ℕ → ℕ → List ℕ
be_bytes zero n = []
be_bytes (suc k) n = (n / 2 ^ (8 * k)) % 2 ^ 8 ∷ be_bytes k n

-- `format!("{otp:0width$}")`, for a number below 10 ^ width.
unfoldable pub padded : ℕ → ℕ → Text
padded zero n = []
padded (suc w) n = padded w (n / 10) ++ (n % 10 + 48) ∷ []

abbrev pub byte_at : List ℕ → ℕ → Option ℕ
byte_at = get_elem?

abbrev pub truncated : Option ℕ → Option ℕ → Option ℕ → Option ℕ → Option ℕ
truncated (some a) (some b) (some c) (some d) =
    some (bit_or (bit_or (bit_or (bit_and a 0x7f * 2 ^ 24) (b * 2 ^ 16)) (c * 2 ^ 8)) d)
truncated _ _ _ _ = none

-- Dynamic truncation; none where the source would index out of bounds.
unfoldable pub truncate : List ℕ → Option ℕ
truncate hs = elim (get_elem? hs (length hs - 1)) [
  | none ↦ none
  | some last ↦
      let offset = bit_and last 0x0f in
      truncated (byte_at hs offset) (byte_at hs (offset + 1)) (byte_at hs (offset + 2))
        (byte_at hs (offset + 3))
]

-- With no width, a number below 10 ^ 0 is printed as the 0 that it is.
abbrev pub printed : ℕ → ℕ → Text
printed zero n = codes "0"
printed (suc w) n = padded (suc w) n

-- `10u32.pow(digits)`, which wraps in a release build.
abbrev pub modulus : ℕ → ℕ
modulus digits = 10 ^ digits % 2 ^ 32

-- none is a panic: a division by zero.
abbrev pub code_of : ℕ → Option ℕ → Option Text
code_of digits none = none
code_of digits (some bin) =
    if modulus digits == 0 then none else some (printed digits (bin % modulus digits))

unfoldable pub hotp : Hmac → List ℕ → ℕ → ℕ → TotpDigest → Option Text
unfolding be_bytes truncate padded
hotp hmac secret counter digits digest = elim (hmac digest secret (be_bytes 8 counter)) [
  | none ↦ none
  | some hs ↦ code_of digits (truncate hs)
]
