-- ===== src/Manager.antt =====
-- jwt.rs: `JwtManager`.
pub mod Reuse
pub mod Lifecycle
pub mod Rotation
use jwt_service_app.Base.{
  ℕ, ◌+◌, ◌%◌, ◌^◌, Bool, true, false, ◌||◌, Option, none, some, List, [], ◌∷◌, Result, ok, err,
  ok_or, and_then, get_elem?, if◌then◌else◌,
}
use jwt_service_app.Base.Text.{Text, codes, split}
use jwt_service_app.Env.{Env, env_u64}
use jwt_service_app.Store.{JtiStore, RefreshRecord, family_group, refresh_key}
use jwt_service_app.Token.Platform.{
  Platform, JwtError, store_error, broken, not_valid, key_error, JsonMap, TokenClaims,
}
use jwt_service_app.Token.Claims.{create_new, claims_from_base64}
use jwt_service_app.Token.Headers.{headers_for}
use jwt_service_app.Token.Signed.{KeySource, TokenRun, to_string, from_string}
use jwt_service_app.Token.Run.{
  World, Run, Outcome, done, failed, panicked, ◌>>=◌, ◌>>◌, pure, fail, lift, utc_now, new_uuid,
  on_store,
}

module _ (p : Platform) (env : Env) (st : JtiStore) (source : KeySource p) where
  open p use {JsonValue, PrivateKey}

  abbrev pub private_key : TokenRun p env st source (Text × PrivateKey)
  private_key w =
      let (key, s) = source.get_private_key (p.clock w.reads) w.keys in
      elim key [
        | some k ↦ (done k, record w { keys = s; reads = w.reads + 1 })
        | none ↦ (failed key_error, record w { keys = s; reads = w.reads + 1 })
      ]

  unfoldable pub generate_token :
      Text → Text → List Text → Option ℕ → JsonMap JsonValue → TokenRun p env st source Text
  generate_token issuer subject audience ttl extra = do
    (kid, key) ← private_key
    claims ← create_new p env st issuer subject audience ttl extra
    lift (to_string p env (headers_for p env kid) claims key)

  unfoldable pub register_access_in_family : Text → Text → TokenRun p env st source (Unit {0})
  register_access_in_family access family = do
    segment ← lift (ok_or broken (get_elem? (split b'.' access) 1))
    claims ← lift (claims_from_base64 p env segment)
    on_store p (st.add_to_group (family_group family) claims.jti claims.exp)

  -- `Utc::now().timestamp() + ttl as i64` is a sum of bit patterns; it is the plain sum unless it
  -- leaves the range of `i64`.
  unfoldable pub issue_refresh : Text → List Text → Text → TokenRun p env st source Text
  issue_refresh subject audience family = do
    let ttl : ℕ = env_u64 env (codes "REFRESH_TOKEN_TTL_SECONDS") 2592000
    id ← new_uuid p
    on_store p (
        st.store_refresh id (record { subject = subject; audience = audience; family = family })
          ttl)
    now ← utc_now p
    on_store p (st.add_to_group (family_group family) (refresh_key id) ((now + ttl) % 2 ^ 64))
    pure id

  unfoldable pub generate_token_pair :
      Text
      → Text
      → List Text
      → Option ℕ
      → JsonMap JsonValue
      → TokenRun p env st source (Text × Text)
  unfolding generate_token register_access_in_family issue_refresh
  generate_token_pair issuer subject audience ttl extra = do
    family ← new_uuid p
    access ← generate_token issuer subject audience ttl extra
    register_access_in_family access family
    refresh ← issue_refresh subject audience family
    pure (access, refresh)

  abbrev pub known : Option RefreshRecord → Result JwtError RefreshRecord
  known none = err not_valid
  known (some rec) = ok rec

  unfoldable pub refresh_token_pair : Text → Text → TokenRun p env st source (Text × Text)
  unfolding generate_token register_access_in_family issue_refresh
  refresh_token_pair refresh_token issuer = do
    found ← on_store p (st.get_refresh refresh_token)
    rec ← lift (known found)
    marked ← on_store p (st.mark_refresh_used refresh_token)
    if marked
        then (do
          access ← generate_token issuer rec.subject rec.audience none []
          register_access_in_family access rec.family
          refresh ← issue_refresh rec.subject rec.audience rec.family
          pure (access, refresh))
        else (do revoked ← on_store p (st.revoke_group (family_group rec.family)); fail not_valid)

  unfoldable pub verify_token :
      Text → Text → Text → TokenRun p env st source (TokenClaims JsonValue)
  unfolding from_string
  verify_token token issuer audience = do
    (headers, claims) ← from_string p env st source token issuer audience
    pure claims
