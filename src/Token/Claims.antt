-- ===== src/Token/Claims.antt =====
-- models/jwt.rs: the claims of a token, their validation, and `TokenClaims::create_new`,
-- `from_base64`, `to_base64` and `is_verify`. Logging is left out.
use jwt_service_app.Base.{
  ℕ, ◌+◌, ◌-◌, ◌%◌, ◌^◌, Bool, false, ◌&&◌, ◌||◌, Option, none, some, List, [], ◌∷◌, any, length,
  is_empty, ltb, leb, Result, ok, err, ok_or, and_then, if◌then◌else◌,
}
use jwt_service_app.Base.Text.{Text, codes, text_eq, contains, parse_uint}
use jwt_service_app.Env.{Env, env_u64, unwrap_or}
use jwt_service_app.Store.{JtiStore, JtiError, subject_group}
use jwt_service_app.Token.Platform.{
  Platform, JwtError, unprocessable_entity, store_error, broken, serialization, JsonMap,
  TokenClaims,
}
use jwt_service_app.Token.Run.{
  Run, done, panicked, ◌>>=◌, ◌>>◌, pure, fail, lift, utc_now, new_uuid, ask_store, on_store,
}

abbrev pub reserved_claims : List Text
reserved_claims =
    codes "iss"
    ∷ codes "sub"
    ∷ codes "aud"
    ∷ codes "exp"
    ∷ codes "iat"
    ∷ codes "nbf"
    ∷ codes "jti"
    ∷ []

-- A timestamp as `i64`, written as its bit pattern; the sum of a time and a number of seconds, whose
-- cast to `i64` wraps. chrono panics where the sum is no `DateTime`.
abbrev pub in_date_range : ℕ → ℕ → ℕ → Bool
in_date_range latest earliest t = leb t latest || leb (2 ^ 64 - earliest) t

unfoldable pub add_seconds : ℕ → ℕ → ℕ → ℕ → Option ℕ
add_seconds latest earliest now seconds =
    let t = (now + seconds) % 2 ^ 64 in if in_date_range latest earliest t then some t else none

abbrev pub or_panic : {S K A : Type 0} → Option A → Run S K A
or_panic none w = (panicked, w)
or_panic (some a) w = (done a, w)

module _ (p : Platform) (env : Env) where
  open p use {JsonValue}

  size_within : ℕ → Option ℕ → Result JwtError (Unit {0})
  size_within max_bytes none = err serialization
  size_within max_bytes (some size) = if ltb max_bytes size then err unprocessable_entity else ok tt

  unfoldable pub validate_custom_claims : JsonMap JsonValue → Result JwtError (Unit {0})
  unfolding size_within
  validate_custom_claims claims =
      if is_empty claims
      then ok tt
      else if ltb (env_u64 env (codes "TOKEN_CLAIMS_MAX_COUNT") 32) (length claims)
      then err unprocessable_entity
      else if any (λ claim. contains reserved_claims claim.0) claims
      then err unprocessable_entity
      else size_within (env_u64 env (codes "TOKEN_CLAIMS_MAX_BYTES") 4096) (p.map_size claims)

  -- The lifetime of a token: the requested one if it is within the bounds, or the configured one.
  unfoldable pub expiration_seconds : Option ℕ → Result JwtError ℕ
  expiration_seconds (some requested) =
      if ltb requested (env_u64 env (codes "TOKEN_TTL_MIN_SECONDS") 1)
        || ltb (env_u64 env (codes "TOKEN_TTL_MAX_SECONDS") 86400) requested
      then err unprocessable_entity
      else ok requested
  expiration_seconds none =
      ok_or unprocessable_entity
        (parse_uint (2 ^ 64) (unwrap_or (codes "3600") (env (codes "TOKEN_EXPIRATION_SECONDS"))))

  abbrev pub first_audience : List Text → Result JwtError Text
  first_audience [] = err unprocessable_entity
  first_audience (a ∷ audience) = ok a

  -- The checks of `is_verify` that need no store, at a moment.
  unfoldable pub claims_valid : TokenClaims JsonValue → Text → Text → ℕ → Bool
  claims_valid claims issuer audience now =
      text_eq claims.iss issuer
      && contains claims.aud audience
      && leb claims.nbf now
      && leb claims.iat now
      && ltb now claims.exp

  -- A store error counts as "not valid".
  abbrev pub exists_or_false : Result JtiError Bool → Bool
  exists_or_false (ok exists) = exists
  exists_or_false (err e) = false

  module _ (st : JtiStore) {K : Type 0} where
    unfoldable pub is_verify : TokenClaims JsonValue → Text → Text → Run st.State K Bool
    is_verify claims issuer audience = do
      now ← utc_now p
      if claims_valid claims issuer audience now
          then (ask_store p (st.check_jti claims.jti) >>= λ r. pure (exists_or_false r))
          else pure false

    unfoldable pub create_new :
        Text
        → Text
        → List Text
        → Option ℕ
        → JsonMap JsonValue
        → Run st.State K (TokenClaims JsonValue)
    unfolding validate_custom_claims expiration_seconds add_seconds is_verify
    create_new issuer subject audience ttl extra = do
      lift (validate_custom_claims extra)
      seconds ← lift (expiration_seconds ttl)
      first ← lift (first_audience audience)
      now ← utc_now p
      exp ← or_panic (add_seconds p.latest p.earliest now seconds)
      jti ← new_uuid p
      on_store p (st.store_jti jti seconds)
      on_store p (st.add_to_group (subject_group subject) jti exp)
      let claims : TokenClaims JsonValue = record {
        iss = issuer;
        sub = subject;
        aud = audience;
        exp = exp;
        iat = now;
        nbf = now;
        jti = jti;
        extra = extra;
      }
      valid ← is_verify claims issuer first
      if valid then pure claims else fail store_error

  -- A segment of a token: base64url, then UTF-8, then JSON.
  unfoldable pub claims_from_base64 : Text → Result JwtError (TokenClaims JsonValue)
  claims_from_base64 segment = and_then (ok_or broken (p.decode segment)) (λ bytes.
      and_then (ok_or broken (p.from_utf8 bytes)) (λ json. ok_or broken (p.parse_claims json)))

  unfoldable pub claims_to_base64 : TokenClaims JsonValue → Result JwtError Text
  claims_to_base64 claims =
      and_then (ok_or serialization (p.print_claims claims)) (λ json. ok (p.encode (p.utf8 json)))
