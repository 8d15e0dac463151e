-- ===== src/Token/Soundness.antt =====
-- What a token has passed that `from_string` accepts.
use jwt_service_app.Base.{
  ok_or-ok, and_then-ok, ℕ, ◌+◌, ◌≤◌, ◌<◌, ◌≡◌, refl, sym, ap, ◌∙◌, Bool, true, false, &&-true,
  Bool-cases, Option, none, some, List, ok, ok_or, arith, inl, inr, if◌then◌else◌,
}
use jwt_service_app.Base.Text.{Text, codes, text_eq_sound, contains}
use jwt_service_app.Env.{Env}
use jwt_service_app.Store.{JtiStore}
use jwt_service_app.Token.Platform.{Platform, broken, not_valid, TokenClaims, TokenHeaders}
use jwt_service_app.Token.Run.{World, ◌>>=◌, pure, fail, lift}
use jwt_service_app.Token.Claims.{is_verify, claims_valid, claims_from_base64}
use jwt_service_app.Token.Headers.{headers_valid, headers_from_base64, supported_algorithms}
use jwt_service_app.Token.Signed.{
  KeySource, from_string, segments, verifying_digest, accepted, public_key, dotted, check_claims,
  check_signature, with_key, with_headers, with_parts,
}
use jwt_service_app.Token.Inversion.{Ends, >>=-Ends, lift->>=-Ends}

module _ (p : Platform) (env : Env) where
  open p use {JsonValue, PublicKey}

  -- The claims name the issuer and the audience, and the moment lies in their time bounds.
  pub record InForce (claims : TokenClaims JsonValue) (issuer audience : Text) (now : ℕ)
      : Type 0 where
    pub issued_by : claims.iss ≡ issuer
    pub addressed : contains claims.aud audience ≡ true
    pub started : claims.nbf ≤ now
    pub issued : claims.iat ≤ now
    pub running : now < claims.exp

  claims_valid-InForce :
      (claims : TokenClaims JsonValue) (issuer audience : Text) (now : ℕ)
      → claims_valid p env claims issuer audience now ≡ true
      → InForce claims issuer audience now
  unfolding claims_valid
  claims_valid-InForce claims issuer audience now h = record {
    issued_by = text_eq_sound claims.iss issuer (ground arith);
    addressed = ground arith;
    started = ground arith;
    issued = ground arith;
    running = ground arith;
  }

  module _ (st : JtiStore) (source : KeySource p) where
    -- A run of `is_verify` that says yes read the clock at the start, found the claims in force, and
    -- was told by the store that the `jti` is there.
    pub is_verify-true :
        (claims : TokenClaims JsonValue) (issuer audience : Text)
        (w w' : World st.State source.State)
        → Ends (is_verify p env st claims issuer audience) w true w'
        → InForce claims issuer audience (p.clock w.reads)
          × ((st.check_jti claims.jti (p.clock (w.reads + 1)) w.store).0 ≡ ok true)
    unfolding is_verify
    is_verify-true claims issuer audience w w' h =
        elim (Bool-cases (claims_valid p env claims issuer audience (p.clock w.reads))) [
          | inl valid ↦ (claims_valid-InForce claims issuer audience _ valid, ground arith)
          | inr invalid ↦ absurd (cc (rw invalid at h))
        ]

    -- All that an accepted token has passed, from the state in which its verification began.
    pub record IsVerified (token issuer audience : Text) (w : World st.State source.State)
        (headers : TokenHeaders) (claims : TokenClaims JsonValue) : Type 0 where
      pub head : Text
      pub body : Text
      pub tail : Text
      pub parts : segments token ≡ some (head, body, tail)
      pub headers_read : headers_from_base64 p env head ≡ ok headers
      pub claims_read : claims_from_base64 p env body ≡ ok claims
      pub key : PublicKey
      pub key_found : (source.get_public_key headers.kid (p.clock w.reads) w.keys).0 ≡ some key
      pub signature : List ℕ
      pub decoded : p.decode tail ≡ some signature
      pub signed :
          p.verify (verifying_digest headers.alg) key signature (p.utf8 (dotted head body))
          ≡ some true
      pub algorithm : contains supported_algorithms headers.alg ≡ true
      pub typ : headers.typ ≡ codes "JWT"
      pub in_force : InForce claims issuer audience (p.clock (w.reads + 1))
      pub active : (st.check_jti claims.jti (p.clock (w.reads + 1 + 1)) w.store).0 ≡ ok true

    public_key-Ends :
        (kid : Text) (w w' : World st.State source.State) (key : PublicKey)
        → Ends (public_key p env st source kid) w key w'
        → ((source.get_public_key kid (p.clock w.reads) w.keys).0 ≡ some key)
          × (w'.store ≡ w.store)
          × (w'.reads ≡ w.reads + 1)
    public_key-Ends kid w w' key h = (ground arith, ground arith, ground arith)

    accepted-ok : (o : Option Bool) → accepted p env o ≡ ok tt → o ≡ some true
    accepted-ok none h = absurd (cc h)
    accepted-ok (some true) h = refl
    accepted-ok (some false) h = absurd (cc h)

    headers_valid-true :
        (headers : TokenHeaders)
        → headers_valid p env headers ≡ true
        → (contains supported_algorithms headers.alg ≡ true) × (headers.typ ≡ codes "JWT")
    unfolding headers_valid
    headers_valid-true headers h =
        let (rest, typ) = &&-true _ _ h in
        ((&&-true _ _ rest).0, text_eq_sound headers.typ (codes "JWT") typ)

    refused :
        (headers : TokenHeaders) (claims : TokenClaims JsonValue) (valid : Bool)
        (w w' : World st.State source.State) (r : TokenHeaders × TokenClaims JsonValue)
        → valid ≡ false
        → Ends (if valid then pure (headers, claims) else fail not_valid) w r w'
        → ⊥
    refused headers claims true w w' r no' h = absurd (cc no')
    refused headers claims false w w' r no' h = absurd (cc h)

    active_then :
        (jti : Text) (w w1 : World st.State source.State)
        → w1.reads ≡ w.reads + 1
        → w1.store ≡ w.store
        → (st.check_jti jti (p.clock (w1.reads + 1)) w1.store).0 ≡ ok true
        → (st.check_jti jti (p.clock (w.reads + 1 + 1)) w.store).0 ≡ ok true
    active_then jti w w1 later kept active =
        sym (
          ap (λ n. (st.check_jti jti (p.clock (n + 1)) w1.store).0) later
          ∙ ap (λ s. (st.check_jti jti (p.clock (w.reads + 1 + 1)) s).0) kept)
        ∙ active

    final_check :
        (headers : TokenHeaders) (claims : TokenClaims JsonValue) (issuer audience : Text)
        (w w' : World st.State source.State) (r : TokenHeaders × TokenClaims JsonValue)
        → Ends (check_claims p env st source issuer audience headers claims) w r w'
        → (headers_valid p env headers ≡ true)
          × (r ≡ (headers, claims))
          × InForce claims issuer audience (p.clock w.reads)
          × ((st.check_jti claims.jti (p.clock (w.reads + 1)) w.store).0 ≡ ok true)
    final_check headers claims issuer audience w w' r h =
        elim (Bool-cases (headers_valid p env headers)) [
          | inl good ↦
              let (valid, w1, ran, rest) =
                >>=-Ends (is_verify p env st claims issuer audience) _ (rw good at h) in
              elim (Bool-cases valid) [
                | inl yes' ↦
                    let (in_force, active) =
                      is_verify-true claims issuer audience w w1 (rw yes' at ran) in
                    (good, ground arith, in_force, active)
                | inr no' ↦ absurd (refused headers claims valid w1 w' r no' rest)
              ]
          | inr bad ↦ absurd (cc (rw bad at h))
        ]

    -- What a run from the public key on has checked.
    with_key-Ends :
        (issuer audience : Text) (parts : Text × Text × Text) (headers : TokenHeaders)
        (key : PublicKey) (w w' : World st.State source.State) (h : TokenHeaders)
        (claims : TokenClaims JsonValue)
        → Ends (with_key p env st source issuer audience parts headers key) w (h, claims) w'
        → (headers ≡ h)
          × (headers_valid p env headers ≡ true)
          × (check_signature p env st source parts headers key ≡ ok tt)
          × (claims_from_base64 p env parts.1 ≡ ok claims)
          × InForce claims issuer audience (p.clock w.reads)
          × ((st.check_jti claims.jti (p.clock (w.reads + 1)) w.store).0 ≡ ok true)
    with_key-Ends issuer audience parts headers key w w' h claims e =
        let (u, signed, h1) =
          lift->>=-Ends (check_signature p env st source parts headers key)
            (λ _.
              lift (claims_from_base64 p env parts.1)
              >>= check_claims p env st source issuer audience headers)
            e in
        let (claims', read, h2) =
          lift->>=-Ends (claims_from_base64 p env parts.1)
            (check_claims p env st source issuer audience headers) h1 in
        let (good, same, in_force, active) =
          final_check headers claims' issuer audience w w' (h, claims) h2 in
        let same_claims : claims' ≡ claims = sym (ap (λ x. x.1) same) in
        (
          sym (ap (λ x. x.0) same),
          good,
          signed,
          read ∙ ap ok same_claims,
          rw same_claims at in_force,
          rw same_claims at active,
        )

    checked-signature :
        (parts : Text × Text × Text) (headers : TokenHeaders) (key : PublicKey)
        → check_signature p env st source parts headers key ≡ ok tt
        → (signature : List ℕ) × (p.decode parts.2 ≡ some signature)
          × (p.verify (verifying_digest headers.alg) key signature (p.utf8 (dotted parts.0 parts.1))
              ≡ some true)
    checked-signature parts headers key h =
        let (signature, decoded, yes') =
          and_then-ok (ok_or broken (p.decode parts.2))
            (λ signature. accepted p env (
              p.verify (verifying_digest headers.alg) key signature
                (p.utf8 (dotted parts.0 parts.1))))
            h in
        (signature, ok_or-ok broken (p.decode parts.2) decoded, accepted-ok _ yes')

    -- A token that `from_string` accepts has three segments at least; its header and claims are read
    -- from the first two; the signature in the third is verified under the public key of the header's
    -- `kid`, with the digest of the header's algorithm, which is a supported one; the type is "JWT";
    -- the claims name the issuer and the audience and are in force at the time of the check; and the
    -- store said that the `jti` is there.
    pub from_string-IsVerified :
        (token issuer audience : Text) (w w' : World st.State source.State) (headers : TokenHeaders)
        (claims : TokenClaims JsonValue)
        → Ends (from_string p env st source token issuer audience) w (headers, claims) w'
        → IsVerified token issuer audience w headers claims
    unfolding from_string
    from_string-IsVerified token issuer audience w w' headers claims e =
        let (parts, split_up, h1) =
          lift->>=-Ends (ok_or broken (segments token)) (with_parts p env st source issuer audience)
            e in
        let (headers', read, h2) =
          lift->>=-Ends (headers_from_base64 p env parts.0)
            (with_headers p env st source issuer audience parts) h1 in
        let (key, w1, e1, h3) =
          >>=-Ends (public_key p env st source headers'.kid)
            (with_key p env st source issuer audience parts headers') h2 in
        let (found, kept, later) = public_key-Ends headers'.kid w w1 key e1 in
        let (same, good, signed, read', in_force, active) =
          with_key-Ends issuer audience parts headers' key w1 w' headers claims h3 in
        let h_signed : check_signature p env st source parts headers key ≡ ok tt =
          sym (ap (λ x. check_signature p env st source parts x key) same) ∙ signed in
        let (signature, decoded, verified) = checked-signature parts headers key h_signed in
        let (algorithm, typ) =
          headers_valid-true headers (sym (ap (headers_valid p env) same) ∙ good) in
        record {
          head = parts.0;
          body = parts.1;
          tail = parts.2;
          parts = ok_or-ok broken (segments token) split_up;
          headers_read = read ∙ ap ok same;
          claims_read = read';
          key = key;
          key_found =
              sym (ap (λ x. (source.get_public_key x.kid (p.clock w.reads) w.keys).0) same) ∙ found;
          signature = signature;
          decoded = decoded;
          signed = verified;
          algorithm = algorithm;
          typ = typ;
          in_force = rw later at in_force;
          active = active_then claims.jti w w1 later kept active;
        }
