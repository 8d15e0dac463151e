-- ===== src/Token/Issuance.antt =====
-- models/jwt.rs: what `create_new` guarantees of the claims that it returns.
use jwt_service_app.Base.{
  ℕ, ◌+◌, ◌≡◌, refl, subst, Bool, true, false, ◌&&◌, Option, some, List, [], ◌∷◌, any, ok, err, leb,
  arith, if◌then◌else◌,
}
use jwt_service_app.Base.Text.{Text, codes, contains}
use jwt_service_app.Env.{Env, env_u64}
use jwt_service_app.Store.{JtiStore, subject_group}
use jwt_service_app.Token.Platform.{
  Platform, JsonMap, TokenClaims, unprocessable_entity, store_error,
}
use jwt_service_app.Token.Run.{World, pure, fail}
use jwt_service_app.Token.Claims.{
  reserved_claims, create_new, validate_custom_claims, expiration_seconds, add_seconds, is_verify,
  first_audience,
}
use jwt_service_app.Token.Inversion.{
  Ends, >>=-Ends, lift->>=-Ends, or_panic->>=-Ends, on_store->>=-Ends,
}

module _ (p : Platform) (env : Env) where
  open p use {JsonValue}

  -- A requested lifetime is used as it is, and only if it lies within the configured bounds; the
  -- lifetime outside them is refused.
  pub expiration_seconds-bounds :
      (requested : ℕ)
      → expiration_seconds p env (some requested) ≡ (
          if leb (env_u64 env (codes "TOKEN_TTL_MIN_SECONDS") 1) requested
            && leb requested (env_u64 env (codes "TOKEN_TTL_MAX_SECONDS") 86400)
          then ok requested
          else err unprocessable_entity)
  unfolding expiration_seconds
  expiration_seconds-bounds requested = ground arith

  abbrev issued_claims :
      Text → Text → List Text → JsonMap JsonValue → ℕ → ℕ → Text → TokenClaims JsonValue
  issued_claims issuer subject audience extra now exp jti = record {
    iss = issuer;
    sub = subject;
    aud = audience;
    exp = exp;
    iat = now;
    nbf = now;
    jti = jti;
    extra = extra;
  }

  -- Claims that pass have none of the reserved names.
  pub validate_custom_claims-free :
      (extra : JsonMap JsonValue)
      → validate_custom_claims p env extra ≡ ok tt
      → any (λ claim. contains reserved_claims claim.0) extra ≡ false
  unfolding validate_custom_claims
  validate_custom_claims-free [] valid = refl
  validate_custom_claims-free (claim ∷ extra) valid = ground (arith, valid)

  module _ (st : JtiStore) (K : Type 0) where
    -- What the claims that are issued hold, for the state in which `create_new` began.
    pub record IsIssued (w : World st.State K) (issuer subject : Text) (audience : List Text)
        (ttl : Option ℕ) (extra : JsonMap JsonValue) (claims : TokenClaims JsonValue) : Type 0 where
      pub extra_valid : validate_custom_claims p env extra ≡ ok tt
      pub seconds : ℕ
      pub lifetime : expiration_seconds p env ttl ≡ ok seconds
      pub expiry : add_seconds p.latest p.earliest (p.clock w.reads) seconds ≡ some claims.exp
      pub iss : claims.iss ≡ issuer
      pub sub : claims.sub ≡ subject
      pub aud : claims.aud ≡ audience
      pub iat : claims.iat ≡ p.clock w.reads
      pub nbf : claims.nbf ≡ p.clock w.reads
      pub jti : claims.jti ≡ p.uuid w.drawn
      pub own_extra : claims.extra ≡ extra
      -- the store took the `jti` for the lifetime, and put it into the group of the subject
      pub stored : (st.store_jti claims.jti seconds (p.clock (w.reads + 1)) w.store).0 ≡ ok tt
      pub grouped :
          (st.add_to_group
            (subject_group subject)
            claims.jti
            claims.exp
            (p.clock (w.reads + 1 + 1))
            (st.store_jti claims.jti seconds (p.clock (w.reads + 1)) w.store).1).0
          ≡ ok tt

    valid_then :
        (valid : Bool) (c claims : TokenClaims JsonValue) (w w' : World st.State K)
        → Ends (if valid then pure c else fail store_error) w claims w'
        → (valid ≡ true) × (c ≡ claims) × (w ≡ w')
    valid_then true c claims w w' h = (refl, cc h, cc h)
    valid_then false c claims w w' h = absurd (cc h)

    -- Claims that `create_new` returns hold the issuer, subject, audience and custom claims of the
    -- request; the custom claims passed their validation; the lifetime is the one that
    -- `expiration_seconds` grants, counted from the time of issue; the `jti` is the UUID drawn; and the
    -- store took the `jti` for just that lifetime, and then into the group of the subject.
    pub create_new-IsIssued :
        (issuer subject : Text) (audience : List Text) (ttl : Option ℕ) (extra : JsonMap JsonValue)
        (w w' : World st.State K) (claims : TokenClaims JsonValue)
        → Ends (create_new p env st {K = K} issuer subject audience ttl extra) w claims w'
        → IsIssued w issuer subject audience ttl extra claims
    unfolding create_new
    create_new-IsIssued issuer subject audience ttl extra w w' claims h =
        let (_, extra_valid, h1) = lift->>=-Ends (validate_custom_claims p env extra) _ h in
        let (seconds, lifetime, h2) = lift->>=-Ends (expiration_seconds p env ttl) _ h1 in
        let (first, some_audience, h3) = lift->>=-Ends (first_audience p env audience) _ h2 in
        let (exp, in_range, h4) =
          or_panic->>=-Ends (add_seconds p.latest p.earliest (p.clock w.reads) seconds) _ h3 in
        let (_, stored, h5) = on_store->>=-Ends p (st.store_jti (p.uuid w.drawn) seconds) _ h4 in
        let (_, grouped, h6) =
          on_store->>=-Ends p (st.add_to_group (subject_group subject) (p.uuid w.drawn) exp) _ h5 in
        let c : TokenClaims JsonValue =
          issued_claims issuer subject audience extra (p.clock w.reads) exp (p.uuid w.drawn) in
        let (valid, w1, ran, h7) = >>=-Ends (is_verify p env st c issuer first) _ h6 in
        let (yes', same, _) = valid_then valid c claims w1 w' h7 in
        let issued : IsIssued w issuer subject audience ttl extra c = record {
          extra_valid = extra_valid;
          seconds = seconds;
          lifetime = lifetime;
          expiry = in_range;
          iss = refl;
          sub = refl;
          aud = refl;
          iat = refl;
          nbf = refl;
          jti = refl;
          own_extra = refl;
          stored = stored;
          grouped = grouped;
        } in
        subst (IsIssued w issuer subject audience ttl extra) same issued
