-- ===== src/Token/RoundTrip.antt =====
-- models/jwt.rs: what `to_string` prints is what `from_string` takes apart.
use jwt_service_app.Base.{
  ok_or-ok, and_then-ok, ℕ, ◌≡◌, refl, sym, ap, subst, ◌∙◌, true, not, ◌==◌, some, List, ◌∷◌, ◌++◌,
  all, ok, ok-injective, ok_or, any, false,
}
use mathlib.Core.List.{append_assoc}
use jwt_service_app.Base.Text.{contains, Text, split, split-no_separator, split-append}
use jwt_service_app.Env.{Env}
use jwt_service_app.Store.{JtiStore}
use jwt_service_app.Token.Serde.{ReadsBack}
use jwt_service_app.Token.Platform.{
  Platform, KeyPair, TokenClaims, TokenHeaders, serialization, bad_signature,
}
use jwt_service_app.Token.Claims.{reserved_claims, claims_from_base64, claims_to_base64}
use jwt_service_app.Token.Headers.{headers_from_base64, headers_to_base64}
use jwt_service_app.Token.Signed.{
  KeySource, to_string, segments, dotted, check_signature, signing_digest, verifying_digest,
  first_three,
}

abbrev NoDot : Text → Type 0
NoDot t = all (λ c. not (c == b'.')) t ≡ true

-- Three texts without a dot, joined by dots, come apart again.
segments-dotted :
    (h c s : Text) → NoDot h → NoDot c → NoDot s → segments (dotted (dotted h c) s) ≡ some (h, c, s)
unfolding segments
segments-dotted h c s no_h no_c no_s = ap first_three (
    ap (split b'.') (append_assoc h (b'.' ∷ c) (b'.' ∷ s))
    ∙ (split-append b'.' h (c ++ (b'.' ∷ s)) no_h
        ∙ ap (λ l. h ∷ l)
            (split-append b'.' c s no_c ∙ ap (λ l. c ∷ l) (split-no_separator b'.' s no_s))))

same_digest : (alg : Text) → verifying_digest alg ≡ signing_digest alg
unfolding verifying_digest signing_digest
same_digest alg = refl

module _ (p : Platform) (env : Env) (law : ReadsBack p) where
  open p use {JsonValue, PrivateKey, PublicKey}

  read_headers :
      (headers : TokenHeaders) (json : Text)
      → p.print_headers headers ≡ some json
      → headers_from_base64 p env (p.encode (p.utf8 json)) ≡ ok headers
  unfolding headers_from_base64
  read_headers headers json printed =
      rw
        (
          headers_from_base64,
          law.decode_encode (p.utf8 json),
          law.from_utf8_utf8 json,
          law.parse_print_headers headers json printed,
        )
        refl

  headers_back :
      (headers : TokenHeaders) (h : Text)
      → headers_to_base64 p env headers ≡ ok h
      → (headers_from_base64 p env h ≡ ok headers) × NoDot h
  unfolding headers_to_base64
  headers_back headers h e =
      let (json, printed, encoded) =
        and_then-ok (ok_or serialization (p.print_headers headers)) _ e in
      let text : p.encode (p.utf8 json) ≡ h = ok-injective encoded in
      let read : headers_from_base64 p env (p.encode (p.utf8 json)) ≡ ok headers =
        read_headers headers json (ok_or-ok serialization (p.print_headers headers) printed) in
      (
        subst (λ t. headers_from_base64 p env t ≡ ok headers) text read,
        subst NoDot text (law.encode_no_dot (p.utf8 json)),
      )

  read_claims :
      (claims : TokenClaims JsonValue) (json : Text)
      → p.exact claims.extra ≡ true
      → any (λ claim. contains reserved_claims claim.0) claims.extra ≡ false
      → p.print_claims claims ≡ some json
      → claims_from_base64 p env (p.encode (p.utf8 json)) ≡ ok claims
  unfolding claims_from_base64
  read_claims claims json exact free printed =
      rw
        (
          claims_from_base64,
          law.decode_encode (p.utf8 json),
          law.from_utf8_utf8 json,
          law.parse_print_claims claims json exact free printed,
        )
        refl

  claims_back :
      (claims : TokenClaims JsonValue) (c : Text)
      → p.exact claims.extra ≡ true
      → any (λ claim. contains reserved_claims claim.0) claims.extra ≡ false
      → claims_to_base64 p env claims ≡ ok c
      → (claims_from_base64 p env c ≡ ok claims) × NoDot c
  unfolding claims_to_base64
  claims_back claims c exact free e =
      let (json, printed, encoded) =
        and_then-ok (ok_or serialization (p.print_claims claims)) _ e in
      let text : p.encode (p.utf8 json) ≡ c = ok-injective encoded in
      let read : claims_from_base64 p env (p.encode (p.utf8 json)) ≡ ok claims =
        read_claims claims json exact free
          (ok_or-ok serialization (p.print_claims claims) printed) in
      (
        subst (λ t. claims_from_base64 p env t ≡ ok claims) text read,
        subst NoDot text (law.encode_no_dot (p.utf8 json)),
      )

  signature_accepted :
      (st : JtiStore) (source : KeySource p) (headers : TokenHeaders) (h c : Text)
      (key : PrivateKey) (public : PublicKey) (signature : List ℕ)
      → KeyPair p key public
      → p.sign (signing_digest headers.alg) key (p.utf8 (dotted h c)) ≡ some signature
      → check_signature p env st source (h, c, p.encode signature) headers public ≡ ok tt
  signature_accepted st source headers h c key public signature pair signed =
      let verified : p.verify (verifying_digest headers.alg) public signature (p.utf8 (dotted h c))
          ≡ some true =
        ap (λ d. p.verify d public signature (p.utf8 (dotted h c))) (same_digest headers.alg)
        ∙ pair (signing_digest headers.alg) (p.utf8 (dotted h c)) signature signed in
      rw (law.decode_encode signature, verified) refl

  -- A token that was signed comes apart into the header, the claims and a signature: both are read
  -- back as they were, and the signature is accepted under the public key of the private key. The
  -- claims' own map is one that JSON keeps, and has no reserved name.
  pub to_string-reads_back :
      (st : JtiStore) (source : KeySource p) (headers : TokenHeaders)
      (claims : TokenClaims JsonValue) (key : PrivateKey) (public : PublicKey) (token : Text)
      → KeyPair p key public
      → p.exact claims.extra ≡ true
      → any (λ claim. contains reserved_claims claim.0) claims.extra ≡ false
      → to_string p env headers claims key ≡ ok token
      → (parts : Text × Text × Text) × (segments token ≡ some parts)
        × (headers_from_base64 p env parts.0 ≡ ok headers)
        × (claims_from_base64 p env parts.1 ≡ ok claims)
        × (check_signature p env st source parts headers public ≡ ok tt)
  unfolding to_string
  to_string-reads_back st source headers claims key public token pair exact free e =
      let (h, is_h, e1) = and_then-ok (headers_to_base64 p env headers) _ e in
      let (c, is_c, e2) = and_then-ok (claims_to_base64 p env claims) _ e1 in
      let (signature, signed, e3) =
        and_then-ok
          (ok_or bad_signature (p.sign (signing_digest headers.alg) key (p.utf8 (dotted h c)))) _
          e2 in
      let (h_back, no_h) = headers_back headers h is_h in
      let (c_back, no_c) = claims_back claims c exact free is_c in
      (
        (h, c, p.encode signature),
        ap segments (sym (ok-injective e3))
            ∙ segments-dotted h c (p.encode signature) no_h no_c (law.encode_no_dot signature),
        h_back,
        c_back,
        signature_accepted st source headers h c key public signature pair
            (ok_or-ok bad_signature _ signed),
      )
