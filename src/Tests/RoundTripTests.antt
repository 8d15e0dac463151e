-- ===== src/Tests/RoundTripTests.antt =====
-- A token that is issued and then verified, on a platform that reads back what it prints: base64 moves
-- every byte up by 47, and one header and one set of claims have a printed form.
use jwt_service_app.Base.{
  ℕ, ◌+◌, ◌-◌, ◌≡◌, refl, sym, ap, subst, Bool, true, false, not, ◌&&◌, ◌==◌, Bool-cases, Option,
  none, some, List, [], ◌∷◌, map, all, is_empty, ok, arith, inl, inr, if◌then◌else◌,
}
use jwt_service_app.Base.Text.{Text, codes, text_eq, text_eq_sound, text_eq_refl}
use jwt_service_app.Token.Serde.{ReadsBack}
use jwt_service_app.Token.Platform.{Platform, KeyPair, TokenClaims, TokenHeaders}
use jwt_service_app.Token.Claims.{claims_from_base64}
use jwt_service_app.Token.Headers.{headers_from_base64}
use jwt_service_app.Token.Signed.{KeySource, to_string}
use jwt_service_app.Token.Run.{World}
use jwt_service_app.Token.Inversion.{Ends}
use jwt_service_app.Redis.{RedisClient}
use jwt_service_app.Redis.Server.{ideal}
use jwt_service_app.Manager.{generate_token, verify_token}
use jwt_service_app.Handlers.{TokenRequest}
use jwt_service_app.Manager.Lifecycle.{verify_token-generate_token}
use jwt_service_app.Tests.Samples.{no_variables, store, empty, one_audience}
use jwt_service_app.Tests.TokenTests.{toy, sample_claims, sample_headers, sample_token, world}

abbrev one_a : List Text → Bool
one_a (a ∷ []) = text_eq a (codes "a")
one_a _ = false

abbrev is_sample : TokenClaims (Unit {0}) → Bool
is_sample c =
    text_eq c.iss (codes "h")
    && (text_eq c.sub (codes "s")
        && (one_a c.aud
            && (c.exp == 50
                && (c.iat == 1
                    && (c.nbf == 1 && (text_eq c.jti (codes "u") && is_empty c.extra))))))

abbrev no_jku : Option Text → Bool
no_jku none = true
no_jku (some u) = false

abbrev is_sample_header : TokenHeaders → Bool
is_sample_header h =
    text_eq h.alg (codes "RS256")
    && (text_eq h.kid (codes "k") && (text_eq h.typ (codes "JWT") && no_jku h.jku))

abbrev lawful : Platform
lawful = record toy {
  print_claims = λ c. if is_sample c then some (codes "C") else none;
  print_headers = λ h. if is_sample_header h then some (codes "H") else none;
}

one_a_sound : (l : List Text) → one_a l ≡ true → l ≡ codes "a" ∷ []
one_a_sound [] h = absurd (cc h)
one_a_sound (a ∷ b ∷ l) h = absurd (cc h)
one_a_sound (a ∷ []) h = ap (λ t. t ∷ []) (text_eq_sound a (codes "a") h)

is_empty_sound : (l : List (Text × Unit {0})) → is_empty l ≡ true → l ≡ []
is_empty_sound [] h = refl
is_empty_sound (x ∷ l) h = absurd (cc h)

no_jku_sound : (o : Option Text) → no_jku o ≡ true → o ≡ none
no_jku_sound none h = refl
no_jku_sound (some u) h = absurd (cc h)

is_sample_sound : (c : TokenClaims (Unit {0})) → is_sample c ≡ true → c ≡ sample_claims
is_sample_sound c h =
    let e1 = text_eq_sound c.iss (codes "h") (ground arith) in
    let e2 = text_eq_sound c.sub (codes "s") (ground arith) in
    let e3 = one_a_sound c.aud (ground arith) in
    let e4 : c.exp ≡ 50 = ground arith in
    let e5 : c.iat ≡ 1 = ground arith in
    let e6 : c.nbf ≡ 1 = ground arith in
    let e7 = text_eq_sound c.jti (codes "u") (ground arith) in
    let e8 = is_empty_sound c.extra (ground arith) in cc

is_sample_header_sound : (h : TokenHeaders) → is_sample_header h ≡ true → h ≡ sample_headers
is_sample_header_sound h e =
    let e1 = text_eq_sound h.alg (codes "RS256") (ground arith) in
    let e2 = text_eq_sound h.kid (codes "k") (ground arith) in
    let e3 = text_eq_sound h.typ (codes "JWT") (ground arith) in
    let e4 = no_jku_sound h.jku (ground arith) in cc

decode-encode : (bytes : List ℕ) → map (λ c. c - 47) (map (λ b. b + 47) bytes) ≡ bytes
decode-encode [] = refl
decode-encode (b ∷ bytes) = ground (arith, decode-encode bytes)

encode-NoDot : (bytes : List ℕ) → all (λ c. not (c == b'.')) (map (λ b. b + 47) bytes) ≡ true
encode-NoDot [] = refl
encode-NoDot (b ∷ bytes) = ground (arith, encode-NoDot bytes)

claims-back :
    (c : TokenClaims (Unit {0})) (t : Text)
    → lawful.print_claims c ≡ some t
    → lawful.parse_claims t ≡ some c
unfolding text_eq
claims-back c t h = elim (Bool-cases (is_sample c)) [
  | inl yes' ↦
      let text : codes "C" ≡ t = cc (rw yes' at h) in
      subst (λ u. lawful.parse_claims u ≡ some c) text (ap some (sym (is_sample_sound c yes')))
  | inr no' ↦ absurd (cc (rw no' at h))
]

headers-back :
    (c : TokenHeaders) (t : Text)
    → lawful.print_headers c ≡ some t
    → lawful.parse_headers t ≡ some c
unfolding text_eq
headers-back c t h = elim (Bool-cases (is_sample_header c)) [
  | inl yes' ↦
      let text : codes "H" ≡ t = cc (rw yes' at h) in
      subst (λ u. lawful.parse_headers u ≡ some c) text
        (ap some (sym (is_sample_header_sound c yes')))
  | inr no' ↦ absurd (cc (rw no' at h))
]

abbrev lawful-ReadsBack : ReadsBack lawful
lawful-ReadsBack = record {
  parse_print_claims = λ c t exact free. claims-back c t;
  parse_print_headers = headers-back;
  decode_encode = λ bytes. ap some (decode-encode bytes);
  encode_no_dot = encode-NoDot;
  from_utf8_utf8 = λ t. refl;
}

pub lawful-KeyPair : KeyPair lawful tt tt
lawful-KeyPair digest message signature h =
    let same : message ≡ signature = cc h in
    ap some (subst (λ s. text_eq s message ≡ true) same (text_eq_refl message))

-- The same platform at the moment of the sample claims.
abbrev pub early : Platform
early = record lawful { clock = λ n. 1 }

pub early-ReadsBack : ReadsBack early
early-ReadsBack = record {
  parse_print_claims = λ c t exact free. claims-back c t;
  parse_print_headers = headers-back;
  decode_encode = lawful-ReadsBack.decode_encode;
  encode_no_dot = lawful-ReadsBack.encode_no_dot;
  from_utf8_utf8 = lawful-ReadsBack.from_utf8_utf8;
}

abbrev pub early_keys : KeySource early
early_keys = record {
  State = Unit;
  get_private_key = λ now s. (some (codes "k", tt), s);
  get_public_key = λ kid now s. (some tt, s);
}

abbrev after_issue : World (RedisClient ideal one_audience) (Unit {0})
after_issue =
    (generate_token early no_variables store early_keys (codes "h") (codes "s") (codes "a" ∷ [])
      (some 49) [] (world empty)).1

verify_token-generate_token_example :
    (claims : TokenClaims (Unit {0})) × (v' : World (RedisClient ideal one_audience) (Unit {0}))
    × Ends
        (verify_token early no_variables store early_keys sample_token (codes "h") (codes "a"))
        after_issue
        claims
        v'
    × (claims.sub ≡ codes "s")
    × (claims.jti ≡ codes "u")
    × (claims.extra ≡ [])
unfolding text_eq generate_token jwt_service_app.Token.Claims.create_new
    jwt_service_app.Base.Text.parse_uint jwt_service_app.Token.Claims.claims_valid
    jwt_service_app.Redis.check_jti jwt_service_app.Redis.store_jti
    jwt_service_app.Redis.add_to_group jwt_service_app.Redis.Keyspace.exists
    jwt_service_app.Redis.Keyspace.set_ex jwt_service_app.Redis.Keyspace.zadd
    jwt_service_app.Redis.Keyspace.expire_at jwt_service_app.Env.env_u64
    jwt_service_app.Store.subject_group to_string jwt_service_app.Token.Headers.headers_to_base64
    jwt_service_app.Token.Claims.claims_to_base64 jwt_service_app.Token.Headers.headers_for
verify_token-generate_token_example =
    verify_token-generate_token early no_variables store early_keys (codes "h") (codes "s")
      (codes "a" ∷ []) (some 49) [] (world empty) after_issue after_issue sample_token (codes "k")
      (codes "a") tt tt 49 50 early-ReadsBack refl refl refl refl refl refl refl (omega arith)
      (omega arith) refl lawful-KeyPair refl

abbrev pub token_request : TokenRequest (Unit {0})
token_request = record {
  sub = codes "s";
  aud = codes "a" ∷ [];
  ttl = some 49;
  refresh = false;
  claims = [];
}
