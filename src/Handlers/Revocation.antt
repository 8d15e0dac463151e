-- ===== src/Handlers/Revocation.antt =====
-- handlers.rs `revoke_token` on the Redis store, against models/jwt.rs `from_string`.
use jwt_service_app.Base.{
  ℕ, ◌+◌, ◌≡◌, ◌≢◌, refl, sym, ap, ◌∙◌, true, false, some, ok, Result-cases, inl, inr,
}
use jwt_service_app.Base.Text.{Text}
use jwt_service_app.Env.{Env}
use jwt_service_app.Store.{JtiStore}
use jwt_service_app.Token.Platform.{Platform, TokenClaims, TokenHeaders}
use jwt_service_app.Token.Run.{World}
use jwt_service_app.Token.Signed.{KeySource, from_string}
use jwt_service_app.Token.Inversion.{Ends}
use jwt_service_app.Token.Soundness.{from_string-IsVerified}
use jwt_service_app.Redis.{AudienceJson, RedisClient, redis_store, check_jti, delete_jti}
use jwt_service_app.Redis.Server.{RedisServer}
use jwt_service_app.Redis.Activity.{check_jti-delete_jti}
use jwt_service_app.Handlers.{revoke_token}

module _ (p : Platform) (env : Env) (st : JtiStore) (source : KeySource p) where
  pub revoke_token-deleted :
      (jti : Text) (w : World st.State source.State)
      → (revoke_token p env st source jti w).0 ≡ some (ok tt)
      → ((st.delete_jti jti (p.clock w.reads) w.store).0 ≡ ok tt)
        × ((revoke_token p env st source jti w).1.store
            ≡ (st.delete_jti jti (p.clock w.reads) w.store).1)
  unfolding revoke_token
  revoke_token-deleted jti w h =
      elim (Result-cases (st.delete_jti jti (p.clock w.reads) w.store).0) [
        | inl (u, deleted) ↦ (deleted, rw (deleted, revoke_token) refl)
        | inr (e, failing) ↦ absurd (cc (rw (failing, revoke_token) at h))
      ]

module _ (p : Platform) (env : Env) (r : RedisServer) (json : AudienceJson)
    (source : KeySource p) where
  open p use {JsonValue}

  abbrev pub Here : Type 0
  Here = World (RedisClient r json) source.State

  -- Once `revoke_token` has answered with success, verification accepts no token with that `jti`
  -- from the store that it left, whatever the rest of the state is: `from_string` never comes to
  -- claims with it.
  pub revoke_token-rejects :
      (jti token issuer audience : Text) (w later w' : Here) (headers : TokenHeaders)
      (claims : TokenClaims JsonValue)
      → (revoke_token p env (redis_store r json) source jti w).0 ≡ some (ok tt)
      → later.store ≡ (revoke_token p env (redis_store r json) source jti w).1.store
      → Ends
          (from_string p env (redis_store r json) source token issuer audience)
          later
          (headers, claims)
          w'
      → claims.jti ≢ jti
  revoke_token-rejects jti token issuer audience w later w' headers claims answered left accepted
        same =
      let (deleted, store) =
        revoke_token-deleted p env (redis_store r json) source jti w answered in
      let active =
        (from_string-IsVerified p env (redis_store r json) source token issuer audience later w'
          headers claims accepted).active in
      let now : ℕ = p.clock (later.reads + 1 + 1) in
      let seen : (check_jti r json jti now (delete_jti r json jti (p.clock w.reads) w.store).1).0
          ≡ ok true =
        sym (ap (λ s. (check_jti r json jti now s).0) (left ∙ store))
        ∙ (sym (ap (λ j. (check_jti r json j now later.store).0) same) ∙ active) in
      let never : true ≡ false =
        check_jti-delete_jti r json jti (p.clock w.reads) now w.store true deleted seen in
      absurd (cc never)
