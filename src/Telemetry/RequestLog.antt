-- ===== src/Telemetry/RequestLog.antt =====
-- logging.rs: the identifier of a request, and the middleware `RequestLog` around the application. The
-- span and the log line are left out.
use jwt_service_app.Base.{
  ℕ, ◌+◌, Bool, not, ◌&&◌, ◌||◌, Option, none, some, List, all, length, is_empty, leb, ◌==◌, Result,
  ok, err, if◌then◌else◌,
}
use jwt_service_app.Base.Text.{Text, codes, as_bytes}
use jwt_service_app.Auth.Validators.{Headers, to_str}

abbrev pub request_id_max_len : ℕ
request_id_max_len = 128

-- `u8::is_ascii_alphanumeric`
abbrev pub is_ascii_alphanumeric : ℕ → Bool
is_ascii_alphanumeric b =
    (leb b'0' b && leb b b'9') || ((leb b'A' b && leb b b'Z') || (leb b'a' b && leb b b'z'))

abbrev pub is_id_byte : ℕ → Bool
is_id_byte b = is_ascii_alphanumeric b || (b == b'-' || b == b'_')

unfoldable pub is_valid_request_id : Text → Bool
unfolding as_bytes
is_valid_request_id value =
    not (is_empty value)
    && (leb (length (as_bytes value)) request_id_max_len && all is_id_byte (as_bytes value))

abbrev pub header_text : Option (List ℕ) → Option Text
header_text none = none
header_text (some value) = to_str value

abbrev pub keep_valid : Option Text → Option Text
keep_valid none = none
keep_valid (some value) = if is_valid_request_id value then some value else none

-- The identifier that came with the request, if it is one.
unfoldable pub incoming_id : Headers → Option Text
unfolding to_str is_valid_request_id
incoming_id headers = keep_valid (header_text (headers (codes "x-request-id")))

-- A response with its `X-Request-Id`. The two parameters are the crates uuid and http:
-- `Uuid::new_v4().to_string()` at each draw, and whether `HeaderValue::from_str` takes a text.
module _ (new_uuid : ℕ → Text) (header_value : Text → Bool) where
  abbrev pub chosen_id : Option Text → ℕ → Text × ℕ
  chosen_id (some id) drawn = (id, drawn)
  chosen_id none drawn = (new_uuid drawn, drawn + 1)

  abbrev pub with_header : {E A : Type 0} → Text → Result E A → Result E (A × Option Text)
  with_header request_id (ok answer) =
      ok (answer, if header_value request_id then some request_id else none)
  with_header request_id (err error) = err error

  -- `RequestLogMiddleware::call`: the service's answer, the header that is added to it, and the state
  -- after it with the number of UUIDs drawn. An error of the service is passed on as it is.
  unfoldable pub call :
      {E A S : Type 0} → Headers → (S → Result E A × S) → ℕ × S → Result E (A × Option Text) × ℕ × S
  unfolding incoming_id
  call headers service (drawn, s) =
      let (request_id, drawn') = chosen_id (incoming_id headers) drawn in
      let (answer, s') = service s in (with_header request_id answer, drawn', s')
