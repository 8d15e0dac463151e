-- ===== src/Manager/Lifecycle.antt =====
-- jwt.rs with models/jwt.rs: a token that is issued is accepted later.
use jwt_service_app.Base.{
  ℕ, ◌+◌, ◌≤◌, ◌<◌, ◌≡◌, refl, sym, ap, ◌∙◌, true, Option, none, some, List, ok, ok-injective,
  arith, any,
}
use jwt_service_app.Base.Text.{Text, codes, text_eq, text_eq_refl, contains}
use jwt_service_app.Env.{Env, unwrap_or}
use jwt_service_app.Store.{JtiStore}
use jwt_service_app.Token.Serde.{ReadsBack}
use jwt_service_app.Token.Platform.{Platform, KeyPair, JsonMap, TokenClaims, TokenHeaders}
use jwt_service_app.Token.Run.{World, ◌>>=◌, resume, lift, pure}
use jwt_service_app.Token.Claims.{
  reserved_claims, create_new, expiration_seconds, add_seconds, claims_valid, claims_from_base64,
  is_verify,
}
use jwt_service_app.Token.Headers.{
  headers_for, headers_valid, same_jku, supported_algorithms, headers_from_base64,
}
use jwt_service_app.Token.Signed.{
  KeySource, to_string, from_string, segments, check_signature, public_key, with_key,
}
use jwt_service_app.Token.Inversion.{Ends, >>=-Ends, lift-Ends}
use jwt_service_app.Token.Issuance.{IsIssued, create_new-IsIssued, validate_custom_claims-free}
use jwt_service_app.Token.RoundTrip.{to_string-reads_back}
use jwt_service_app.Manager.{generate_token, verify_token, private_key}

some-injective : {A : Type 0} {a b : A} → ◌≡◌ {A = Option A} (some a) (some b) → a ≡ b
some-injective h = cc h

same_jku_refl : (o : Option Text) → same_jku o o ≡ true
same_jku_refl none = refl
same_jku_refl (some t) = text_eq_refl t

module _ (p : Platform) (env : Env) (st : JtiStore) (source : KeySource p) where
  open p use {JsonValue, PrivateKey, PublicKey}

  abbrev Here : Type 0
  Here = World st.State source.State

  headers_for-valid :
      (kid : Text)
      → contains supported_algorithms (unwrap_or (codes "RS256") (env (codes "TOKEN_ALGORITHM")))
        ≡ true
      → headers_valid p env (headers_for p env kid) ≡ true
  unfolding headers_valid headers_for
  headers_for-valid kid supported =
      rw
        (
          supported,
          headers_valid,
          same_jku_refl (env (codes "TOKEN_JKU")),
          text_eq_refl (codes "JWT"),
        )
        refl

  claims_valid-in_time :
      (claims : TokenClaims JsonValue) (issuer audience : Text) (now : ℕ)
      → claims.iss ≡ issuer
      → contains claims.aud audience ≡ true
      → claims.nbf ≤ now
      → claims.iat ≤ now
      → now < claims.exp
      → claims_valid p env claims issuer audience now ≡ true
  unfolding claims_valid
  claims_valid-in_time claims issuer audience now iss aud nbf iat exp =
      let same : text_eq claims.iss issuer ≡ true =
        ap (text_eq claims.iss) (sym iss) ∙ text_eq_refl claims.iss in
      ground (arith, same, aud, nbf, iat, exp)

  -- The world after a key was asked for.
  abbrev after_public_key : Text → Here → Here
  after_public_key kid v = record v {
    keys = (source.get_public_key kid (p.clock v.reads) v.keys).1;
    reads = v.reads + 1;
  }

  public_key-done :
      (kid : Text) (v : Here) (public : PublicKey)
      → (source.get_public_key kid (p.clock v.reads) v.keys).0 ≡ some public
      → Ends (public_key p env st source kid) v public (after_public_key kid v)
  public_key-done kid v public found = rw (found, public_key) refl

  abbrev after_check : TokenClaims JsonValue → Here → Here
  after_check claims v = record v {
    store = (st.check_jti claims.jti (p.clock (v.reads + 1)) v.store).1;
    reads = v.reads + 1 + 1;
  }

  -- What the steps after the key come to when each succeeds.
  with_key-accepts :
      (issuer audience : Text) (v : Here) (headers : TokenHeaders) (claims : TokenClaims JsonValue)
      (public : PublicKey) (parts : Text × Text × Text)
      → check_signature p env st source parts headers public ≡ ok tt
      → claims_from_base64 p env parts.1 ≡ ok claims
      → headers_valid p env headers ≡ true
      → claims_valid p env claims issuer audience (p.clock v.reads) ≡ true
      → (st.check_jti claims.jti (p.clock (v.reads + 1)) v.store).0 ≡ ok true
      → Ends
          (with_key p env st source issuer audience parts headers public)
          v
          (headers, claims)
          (after_check claims v)
  unfolding is_verify
  with_key-accepts issuer audience v headers claims public parts good read valid in_force active =
      rw (good, read, valid, in_force, is_verify, active) refl

  -- What `verify_token` comes to when every step of it succeeds.
  verify_token-accepts :
      (token issuer audience : Text) (v : Here) (headers : TokenHeaders)
      (claims : TokenClaims JsonValue) (public : PublicKey) (parts : Text × Text × Text)
      → segments token ≡ some parts
      → headers_from_base64 p env parts.0 ≡ ok headers
      → (source.get_public_key headers.kid (p.clock v.reads) v.keys).0 ≡ some public
      → check_signature p env st source parts headers public ≡ ok tt
      → claims_from_base64 p env parts.1 ≡ ok claims
      → headers_valid p env headers ≡ true
      → claims_valid p env claims issuer audience (p.clock (v.reads + 1)) ≡ true
      → (st.check_jti claims.jti (p.clock (v.reads + 1 + 1)) v.store).0 ≡ ok true
      → Ends
          (verify_token p env st source token issuer audience)
          v
          claims
          (after_check claims (after_public_key headers.kid v))
  unfolding verify_token from_string
  verify_token-accepts token issuer audience v headers claims public parts split_up read found good
        read' valid in_force active =
      let rest = with_key p env st source issuer audience parts headers in
      let begun : from_string p env st source token issuer audience v
          ≡ resume rest (public_key p env st source headers.kid v) =
        rw (split_up, from_string, read) refl in
      let ended =
        begun
        ∙ (ap (resume rest) (public_key-done headers.kid v public found)
            ∙ with_key-accepts issuer audience (after_public_key headers.kid v) headers claims
                public parts good read' valid in_force active) in
      ap (resume (λ result. pure result.1)) ended

  -- The world in which `create_new` begins: after the private key was asked for.
  abbrev pub after_key : Here → Here
  after_key w = record w {
    keys = (source.get_private_key (p.clock w.reads) w.keys).1;
    reads = w.reads + 1;
  }

  private_key-done :
      (w : Here) (kid : Text) (key : PrivateKey)
      → (source.get_private_key (p.clock w.reads) w.keys).0 ≡ some (kid, key)
      → Ends (private_key p env st source) w (kid, key) (after_key w)
  private_key-done w kid key found = rw (found, private_key) refl

  -- What an issued token is made of.
  pub generate_token-parts :
      (issuer subject : Text) (audience : List Text) (ttl : Option ℕ) (extra : JsonMap JsonValue)
      (w w' : Here) (token kid : Text) (key : PrivateKey)
      → (source.get_private_key (p.clock w.reads) w.keys).0 ≡ some (kid, key)
      → Ends (generate_token p env st source issuer subject audience ttl extra) w token w'
      → (claims : TokenClaims JsonValue) × IsIssued p env st source.State
          (after_key w)
          issuer
          subject
          audience
          ttl
          extra
          claims
        × (to_string p env (headers_for p env kid) claims key ≡ ok token)
  unfolding generate_token
  generate_token-parts issuer subject audience ttl extra w w' token kid key has_key h =
      let rest = λ (pair : Text × PrivateKey).
        create_new p env st issuer subject audience ttl extra >>= λ claims.
        lift (to_string p env (headers_for p env pair.0) claims pair.1) in
      let h1 = sym (ap (resume rest) (private_key-done w kid key has_key)) ∙ h in
      let (claims, w1, created, printed) =
        >>=-Ends (create_new p env st issuer subject audience ttl extra)
          (λ claims. lift (to_string p env (headers_for p env kid) claims key)) h1 in
      (
        claims,
        create_new-IsIssued p env st source.State issuer subject audience ttl extra (after_key w) w1
            claims created,
        (lift-Ends (to_string p env (headers_for p env kid) claims key) printed).0,
      )

  -- A token that `generate_token` issues is accepted by `verify_token`, in any later state of the
  -- process: for the issuer and for each audience that it was issued for, from the moment of issue
  -- until it expires, as long as the store says that its `jti` is active, and the public key of its
  -- `kid` belongs to the private key that signed. The algorithm that is set is a supported one, and
  -- the custom claims are a map that JSON keeps: no floating point numbers, whose digits may change.
  pub verify_token-generate_token :
      (issuer subject : Text) (audience : List Text) (ttl : Option ℕ) (extra : JsonMap JsonValue)
      (w w' v : Here) (token kid one : Text) (key : PrivateKey) (public : PublicKey)
      (seconds exp : ℕ)
      → ReadsBack p
      → p.exact extra ≡ true
      → contains supported_algorithms (unwrap_or (codes "RS256") (env (codes "TOKEN_ALGORITHM")))
        ≡ true
      → (source.get_private_key (p.clock w.reads) w.keys).0 ≡ some (kid, key)
      → Ends (generate_token p env st source issuer subject audience ttl extra) w token w'
      → contains audience one ≡ true
      → expiration_seconds p env ttl ≡ ok seconds
      → add_seconds p.latest p.earliest (p.clock (w.reads + 1)) seconds ≡ some exp
      → p.clock (w.reads + 1) ≤ p.clock (v.reads + 1)
      → p.clock (v.reads + 1) < exp
      → (source.get_public_key kid (p.clock v.reads) v.keys).0 ≡ some public
      → KeyPair p key public
      → (st.check_jti (p.uuid w.drawn) (p.clock (v.reads + 1 + 1)) v.store).0 ≡ ok true
      → (claims : TokenClaims JsonValue) × (v' : Here) × Ends
          (verify_token p env st source token issuer one)
          v
          claims
          v'
        × (claims.sub ≡ subject)
        × (claims.jti ≡ p.uuid w.drawn)
        × (claims.extra ≡ extra)
  unfolding headers_for
  verify_token-generate_token issuer subject audience ttl extra w w' v token kid one key public
        seconds exp law exact supported has_key h asked lifetime expiry begun alive found pair
        active =
      let (claims, issued, printed) =
        generate_token-parts issuer subject audience ttl extra w w' token kid key has_key h in
      let (parts, split_up, read, read', good) =
        to_string-reads_back p env law st source (headers_for p env kid) claims key public token
          pair (ap p.exact issued.own_extra ∙ exact)
          (ap (any (λ claim. contains reserved_claims claim.0)) issued.own_extra
            ∙ validate_custom_claims-free p env extra issued.extra_valid)
          printed in
      let same_seconds : issued.seconds ≡ seconds = ok-injective (sym issued.lifetime ∙ lifetime) in
      let same_exp : claims.exp ≡ exp = some-injective (
        sym issued.expiry
        ∙ (ap (add_seconds p.latest p.earliest (p.clock (w.reads + 1))) same_seconds ∙ expiry)) in
      let in_force : claims_valid p env claims issuer one (p.clock (v.reads + 1)) ≡ true =
        claims_valid-in_time claims issuer one (p.clock (v.reads + 1)) issued.iss
          (ap (λ l. contains l one) issued.aud ∙ asked) (omega (arith, issued.nbf, begun))
          (omega (arith, issued.iat, begun)) (omega (arith, same_exp, alive)) in
      let ended =
        verify_token-accepts token issuer one v (headers_for p env kid) claims public parts split_up
          read found good read' (headers_for-valid kid supported) in_force
          (ap (λ j. (st.check_jti j (p.clock (v.reads + 1 + 1)) v.store).0) issued.jti ∙ active) in
      (claims, _, ended, issued.sub, issued.jti, issued.own_extra)
