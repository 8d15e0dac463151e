-- ===== src/Telemetry/RequestIds.antt =====
-- logging.rs: what a caller gets as the identifier of a request.
use jwt_service_app.Base.{
  ℕ, ◌≡◌, refl, sym, ap, ◌∙◌, ◌⊎◌, inl, inr, Bool, true, ◌&&◌, Bool-cases, Option, none, some,
  Option-cases, [], ◌∷◌, all, ltb, leb, arith, Result, ok, err, &&-true, all-append,
}
use jwt_service_app.Base.Text.{Text, codes, as_bytes, utf8_char}
use jwt_service_app.Auth.Validators.{Headers}
use jwt_service_app.Telemetry.RequestLog.{
  is_valid_request_id, is_id_byte, incoming_id, header_text, keep_valid, chosen_id, with_header,
  call,
}

-- Only characters of ASCII have UTF-8 bytes that an identifier may have.
utf8_char-id : (c : ℕ) → all is_id_byte (utf8_char c) ≡ true → is_id_byte c ≡ true
utf8_char-id c h = ground arith

pub as_bytes-id : (s : Text) → all is_id_byte (as_bytes s) ≡ true → all is_id_byte s ≡ true
unfolding as_bytes
as_bytes-id [] h = refl
as_bytes-id (c ∷ s) h =
    let (first, rest) =
      &&-true (all is_id_byte (utf8_char c)) (all is_id_byte (as_bytes s))
        (sym (all-append is_id_byte (utf8_char c) (as_bytes s)) ∙ h) in
    ground (arith, utf8_char-id c first, as_bytes-id s rest)

abbrev is_visible : ℕ → Bool
is_visible c = leb 32 c && ltb c 127

all_visible : (s : Text) → all is_id_byte s ≡ true → all is_visible s ≡ true
all_visible [] h = refl
all_visible (c ∷ s) h = ground (arith, h, all_visible s (ground (arith, h)))

valid_is_visible : (id : Text) → is_valid_request_id id ≡ true → all is_visible id ≡ true
unfolding is_valid_request_id
valid_is_visible id h =
    let (_, rest) = &&-true _ _ h in
    let (_, bytes) = &&-true _ _ rest in all_visible id (as_bytes-id id bytes)

keep_valid-some :
    (o : Option Text) (id : Text) → keep_valid o ≡ some id → is_valid_request_id id ≡ true
keep_valid-some none id h = absurd (cc h)
keep_valid-some (some v) id h = elim (Bool-cases (is_valid_request_id v)) [
  | inl good ↦ let same : v ≡ id = cc (rw good at h) in ap is_valid_request_id (sym same) ∙ good
  | inr bad ↦ absurd (cc (rw bad at h))
]

pub incoming_id-valid :
    (headers : Headers) (id : Text) → incoming_id headers ≡ some id → is_valid_request_id id ≡ true
unfolding incoming_id
incoming_id-valid headers id h = keep_valid-some (header_text (headers (codes "x-request-id"))) id h

module _ (new_uuid : ℕ → Text) (header_value : Text → Bool) where
  abbrev pub answered_with : {E A : Type 0} → Result E A → Text → Result E (A × Option Text)
  answered_with (ok answer) id = ok (answer, some id)
  answered_with (err error) id = err error

  taken_on :
      {E A : Type 0} (r : Result E A) (id : Text)
      → header_value id ≡ true
      → with_header new_uuid header_value id r ≡ answered_with r id
  taken_on (ok answer) id taken = rw taken refl
  taken_on (err error) id taken = refl

  echo :
      {E A S : Type 0} (headers : Headers) (service : S → Result E A × S) (drawn : ℕ) (s : S)
      (id : Text)
      → (chosen_id new_uuid header_value (incoming_id headers) drawn).0 ≡ id
      → header_value id ≡ true
      → (call new_uuid header_value headers service (drawn, s)).0 ≡ answered_with (service s).0 id
  unfolding call
  echo headers service drawn s id chosen taken = rw (call, chosen) (taken_on (service s).0 id taken)

  -- Every answer of the application goes out with an `X-Request-Id` that is safe to write into a log:
  -- not empty, of at most 128 bytes, and of ASCII letters, digits, `-` and `_` only. It is the
  -- identifier that came with the request if that is one, and a new UUID otherwise; the answer and
  -- the state are those of the application. An error of the application is passed on as it is,
  -- without a header. A UUID is written as such an identifier, and the crate http takes visible
  -- ASCII.
  pub call-is_valid_request_id :
      {E A S : Type 0} (headers : Headers) (service : S → Result E A × S) (drawn : ℕ) (s : S)
      → ((n : ℕ) → is_valid_request_id (new_uuid n) ≡ true)
      → ((t : Text) → all is_visible t ≡ true → header_value t ≡ true)
      → (id : Text) × ((call new_uuid header_value headers service (drawn, s)).0
          ≡ answered_with (service s).0 id)
        × (is_valid_request_id id ≡ true)
        × ((incoming_id headers ≡ some id) ⊎ ((incoming_id headers ≡ none) × (id ≡ new_uuid drawn)))
        × ((call new_uuid header_value headers service (drawn, s)).2 ≡ (service s).1)
  unfolding call
  call-is_valid_request_id headers service drawn s uuid_valid visible =
      elim (Option-cases (incoming_id headers)) [
        | inl fresh ↦
            let id = new_uuid drawn in
            (
              id,
              echo headers service drawn s id (rw fresh refl)
                  (visible id (valid_is_visible id (uuid_valid drawn))),
              uuid_valid drawn,
              inr (fresh, refl),
              refl,
            )
        | inr (id, came) ↦
            let good = incoming_id-valid headers id came in
            (
              id,
              echo headers service drawn s id (rw came refl)
                  (visible id (valid_is_visible id good)),
              good,
              inl came,
              refl,
            )
      ]
