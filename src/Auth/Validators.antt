-- ===== src/Auth/Validators.antt =====
-- auth.rs: the validators of levels 2 to 4. The headers of a request are a lookup from a name to the
-- bytes of its value; `openssl::memcmp::eq` compares bytes.
use jwt_service_app.Base.{
  ℕ, zero, suc, ◌+◌, ◌-◌, ◌*◌, ◌/◌, ◌%◌, ◌^◌, Bool, true, false, ◌&&◌, ◌||◌, Option, none, some,
  List, [], ◌∷◌, all, length, leb, ltb, ◌==◌, if◌then◌else◌,
}
use jwt_service_app.Base.Text.{Text, codes, text_eq, trim, split_once, to_ascii_lowercase}
use jwt_service_app.Auth.Hotp.{TotpDigest, sha256, Hmac, hotp}

abbrev pub Headers : Type 0
Headers = Text → Option (List ℕ)

abbrev pub same_secret : List ℕ → List ℕ → Bool
same_secret provided expected = length provided == length expected && text_eq provided expected

pub record ProxyValidator : Type 0 where
  pub header : Text
  pub secret : List ℕ

abbrev provided_is : List ℕ → Option (List ℕ) → Bool
provided_is secret none = false
provided_is secret (some provided) = same_secret provided secret

unfoldable pub proxy_validate : ProxyValidator → Headers → Bool
proxy_validate v headers = provided_is v.secret (headers v.header)

pub record MetricsValidator : Type 0 where
  pub token : Option (List ℕ)

-- `HeaderValue::to_str`: only visible ASCII, space and tab.
unfoldable pub to_str : List ℕ → Option Text
to_str value = if all (λ c. (leb 32 c && ltb c 127) || c == 9) value then some value else none

abbrev bearer_is : List ℕ → Option (Text × Text) → Bool
bearer_is expected none = false
bearer_is expected (some (scheme, provided)) =
    text_eq (to_ascii_lowercase scheme) (codes "bearer") && same_secret (trim provided) expected

abbrev split_value : Option Text → Option (Text × Text)
split_value none = none
split_value (some value) = split_once b' ' value

abbrev ascii_value : Option (List ℕ) → Option Text
ascii_value none = none
ascii_value (some value) = to_str value

abbrev metrics_check : Option (List ℕ) → Option (List ℕ) → Bool
metrics_check none value = false
metrics_check (some expected) value = bearer_is expected (split_value (ascii_value value))

unfoldable pub metrics_validate : MetricsValidator → Headers → Bool
unfolding to_str split_once to_ascii_lowercase trim
metrics_validate v headers = metrics_check v.token (headers (codes "Authorization"))

pub record TotpValidator : Type 0 where
  pub header : Text
  pub secrets : List (List ℕ)
  pub step : ℕ
  pub digits : ℕ
  pub skew : ℕ
  pub digest : TotpDigest

abbrev hex_digit : ℕ → ℕ
hex_digit d = if ltb d 10 then 48 + d else 87 + d

-- `format!("{b:02x}")` for each byte.
unfoldable pub hex : List ℕ → Text
hex [] = []
hex (b ∷ bytes) = hex_digit (b / 16) ∷ hex_digit (b % 16) ∷ hex bytes

abbrev fingerprint_with : Hmac → List (List ℕ) → List ℕ → Option Text
fingerprint_with hmac [] provided = none
fingerprint_with hmac (secret ∷ secrets) provided = elim (hmac sha256 secret provided) [
  | none ↦ none
  | some digest ↦ some (hex digest)
]

unfoldable pub code_fingerprint : Hmac → TotpValidator → Headers → Option Text
unfolding hex
code_fingerprint hmac v headers = elim (headers v.header) [
  | none ↦ none
  | some provided ↦ fingerprint_with hmac v.secrets provided
]

unfoldable pub replay_window_seconds : TotpValidator → ℕ
replay_window_seconds v = (v.step * ((2 * v.skew + 1) % 2 ^ 64)) % 2 ^ 64

-- `u64::saturating_add`
abbrev pub saturating_add : ℕ → ℕ → ℕ
saturating_add a b = if ltb (a + b) (2 ^ 64) then a + b else 2 ^ 64 - 1

-- The windows from `low` on, as many as given.
unfoldable pub windows : ℕ → ℕ → List ℕ
windows low zero = []
windows low (suc count) = low ∷ windows (low + 1) count

abbrev code_matches : List ℕ → Option Text → Bool
code_matches provided none = false
code_matches provided (some code) = same_secret provided code

module _ (hmac : Hmac) (v : TotpValidator) where
  -- One round of the inner loop.
  unfoldable pub matches : List ℕ → List ℕ → ℕ → Bool
  matches provided secret c = code_matches provided (hotp hmac secret c v.digits v.digest)

  -- The loops go on after a match: `matched` stays true.
  unfoldable pub window_loop : List ℕ → List ℕ → Bool → List ℕ → Bool
  unfolding matches
  window_loop provided secret matched [] = matched
  window_loop provided secret matched (c ∷ cs) =
      window_loop provided secret (if matches provided secret c then true else matched) cs

  unfoldable pub secret_loop : List ℕ → List ℕ → Bool → List (List ℕ) → Bool
  unfolding window_loop
  secret_loop provided cs matched [] = matched
  secret_loop provided cs matched (secret ∷ secrets) =
      secret_loop provided cs (window_loop provided secret matched cs) secrets

  -- `low..=high` around the counter of the moment.
  unfoldable pub window_range : ℕ → List ℕ
  unfolding windows
  window_range now =
      let counter = now / v.step in
      let low = counter - v.skew in windows low (suc (saturating_add counter v.skew - low))

  unfoldable pub totp_validate : Headers → ℕ → Bool
  unfolding secret_loop window_range
  totp_validate headers now = elim (headers v.header) [
    | none ↦ false
    | some provided ↦ secret_loop provided (window_range now) false v.secrets
  ]
