-- ===== src/Manager/Reuse.antt =====
-- jwt.rs: what `refresh_token_pair` does with a refresh token that is unknown or was used before.
use jwt_service_app.Base.{
  ℕ, ◌+◌, ◌≡◌, ◌<◌, ◌∙◌, refl, sym, ap, Bool, false, Option, none, some, Result, ok, err,
  Result-cases, inl, inr,
}
use jwt_service_app.Base.Text.{Text}
use jwt_service_app.Env.{Env}
use jwt_service_app.Store.{JtiStore, JtiError, RefreshRecord, family_group}
use jwt_service_app.Token.Platform.{Platform, not_valid, store_error}
use jwt_service_app.Token.Run.{World, Outcome, failed}
use jwt_service_app.Token.Signed.{KeySource}
use jwt_service_app.Manager.{refresh_token_pair}
use jwt_service_app.Redis.{AudienceJson, RedisClient, redis_store, check_jti}
use jwt_service_app.Redis.Server.{RedisServer, exact}
use jwt_service_app.Redis.Refines.{keys}
use jwt_service_app.Redis.Groups.{group_score}
use jwt_service_app.Redis.Revocation.{revoke_group_kills}

module _ (p : Platform) (env : Env) (st : JtiStore) (source : KeySource p) where
  abbrev pub Here : Type 0
  Here = World st.State source.State

  -- The store after `get_refresh`, and after `mark_refresh_used` on it.
  abbrev pub looked_up : Text → Here → Result JtiError (Option RefreshRecord) × st.State
  looked_up token w = st.get_refresh token (p.clock w.reads) w.store

  abbrev pub marked : Text → Here → Result JtiError Bool × st.State
  marked token w = st.mark_refresh_used token (p.clock (w.reads + 1)) (looked_up token w).1

  abbrev pub after_revocation : Text → Text → Here → Result JtiError ℕ × st.State
  after_revocation token family w =
      st.revoke_group (family_group family) (p.clock (w.reads + 1 + 1)) (marked token w).1

  abbrev pub refused_by : Result JtiError ℕ → Outcome (Text × Text)
  refused_by (ok revoked) = failed not_valid
  refused_by (err e) = failed store_error

  -- A refresh token whose record is there and which was used before is refused, as not valid or with
  -- the error of the store; the group of its family is revoked; and nothing else is done: no UUID
  -- is drawn, no key is asked for, and the store is the one that the revocation leaves.
  refresh_token_pair-reused :
      (token issuer : Text) (w : Here) (rec : RefreshRecord)
      → (looked_up token w).0 ≡ ok (some rec)
      → (marked token w).0 ≡ ok false
      → refresh_token_pair p env st source token issuer w ≡ (
        refused_by (after_revocation token rec.family w).0,
        record w { store = (after_revocation token rec.family w).1; reads = w.reads + 1 + 1 + 1 },
      )
  unfolding refresh_token_pair
  refresh_token_pair-reused token issuer w rec found used = rw found (
      rw used (elim (Result-cases (after_revocation token rec.family w).0) [
        | inl (n, revoked) ↦ rw revoked refl
        | inr (e, failing) ↦ rw failing refl
      ]))

  -- A refresh token with no record is refused as not valid, and nothing is done after the lookup.
  pub refresh_token_pair-unknown :
      (token issuer : Text) (w : Here)
      → (looked_up token w).0 ≡ ok none
      → refresh_token_pair p env st source token issuer w
        ≡ (failed not_valid, record w { store = (looked_up token w).1; reads = w.reads + 1 })
  unfolding refresh_token_pair
  refresh_token_pair-unknown token issuer w found = rw found refl

module _ (p : Platform) (env : Env) (r : RedisServer) (json : AudienceJson)
    (source : KeySource p) where
  abbrev store : JtiStore
  store = redis_store r json

  -- A refresh token whose record is there, marked as used, ends its family when it is used again: the
  -- exchange is refused as not valid, no UUID is drawn for a token, and no member of the family's
  -- group that has not expired at the revocation is active afterwards, whichever check is answered.
  -- The store answers the revocation, at a time below 2 ^ 53.
  pub refresh_token_pair-revokes :
      (token issuer jti : Text) (w : World (RedisClient r json) source.State) (rec : RefreshRecord)
      (n score later : ℕ) (active : Bool)
      → (looked_up p env store source token w).0 ≡ ok (some rec)
      → (marked p env store source token w).0 ≡ ok false
      → (after_revocation p env store source token rec.family w).0 ≡ ok n
      → p.clock (w.reads + 1 + 1) < exact
      → group_score
          (p.clock (w.reads + 1 + 1))
          (keys r json (marked p env store source token w).1)
          (family_group rec.family)
          jti
        ≡ some score
      → p.clock (w.reads + 1 + 1) < score
      → (check_jti r json jti later
          (refresh_token_pair p env store source token issuer w).1.store).0
        ≡ ok active
      → ((refresh_token_pair p env store source token issuer w).0 ≡ failed not_valid)
        × ((refresh_token_pair p env store source token issuer w).1.drawn ≡ w.drawn)
        × (active ≡ false)
  refresh_token_pair-revokes token issuer jti w rec n score later active found used revoked small
        listed alive checked =
      let ended = refresh_token_pair-reused p env store source token issuer w rec found used in
      (
        ap (λ o. o.0) ended ∙ ap (refused_by p env store source) revoked,
        ap (λ o. o.1.drawn) ended,
        revoke_group_kills r json (family_group rec.family) jti (p.clock (w.reads + 1 + 1)) later n
            score _ active small listed alive revoked
            (sym (ap (λ o. (check_jti r json jti later o.1.store).0) ended) ∙ checked),
      )
