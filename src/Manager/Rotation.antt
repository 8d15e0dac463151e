-- ===== src/Manager/Rotation.antt =====
-- jwt.rs: what `refresh_token_pair` has done when it answers with a new pair.
pub mod Steps
pub mod Exchanges
use jwt_service_app.Base.{
  ℕ, ◌+◌, ◌%◌, ◌^◌, ◌≡◌, refl, sym, ap, subst, ◌∙◌, Bool, true, false, Bool-cases, inl, inr, Option,
  none, some, List, [], ◌∷◌, Result, ok, err, ok_or, ok_or-ok, Result-cases, get_elem?,
  if◌then◌else◌,
}
use jwt_service_app.Base.Text.{Text, codes, split}
use jwt_service_app.Env.{Env, env_u64}
use jwt_service_app.Store.{JtiStore, JtiError, RefreshRecord, family_group, refresh_key}
use jwt_service_app.Token.Platform.{Platform, TokenClaims, broken, not_valid}
use jwt_service_app.Token.Run.{
  World, Run, Outcome, done, failed, panicked, ◌>>=◌, ◌>>◌, pure, fail, lift, on_store, new_uuid,
  utc_now,
}
use jwt_service_app.Token.Claims.{create_new, claims_from_base64}
use jwt_service_app.Token.Headers.{headers_for}
use jwt_service_app.Token.Signed.{KeySource, TokenRun, to_string}
use jwt_service_app.Token.Inversion.{Ends, >>=-Ends, lift-Ends, lift->>=-Ends, on_store->>=-Ends}
use jwt_service_app.Token.Issuance.{IsIssued, create_new-IsIssued}
use jwt_service_app.Manager.{
  generate_token, register_access_in_family, issue_refresh, refresh_token_pair, private_key, known,
}
use jwt_service_app.Manager.Reuse.{looked_up, marked}

module _ (p : Platform) (env : Env) (st : JtiStore) (source : KeySource p) where
  open p use {JsonValue, PrivateKey}

  abbrev Here : Type 0
  Here = World st.State source.State

  -- The store has done an operation successfully at some moment, and went from a state to another.
  abbrev pub Done :
      (ℕ → st.State → Result JtiError (Unit {0}) × st.State) → st.State → st.State → Type 0
  Done op s s' = (now : ℕ) × (op now s ≡ (ok tt, s'))

  -- The access token is a token of its own, without custom claims, for what the record says.
  pub record IsRenewed (issuer : Text) (rec : RefreshRecord) (access : Text) : Type 0 where
    pub claims : TokenClaims JsonValue
    pub issued_at : Here
    pub issued :
        IsIssued p env st source.State issued_at issuer rec.subject rec.audience none [] claims
    pub kid : Text
    pub key : PrivateKey
    pub printed : to_string p env (headers_for p env kid) claims key ≡ ok access

  -- The three changes of the store, one after another, that keep the new pair with its family: the
  -- `jti` of the access token in the group, the record of the refresh token, its key in the group.
  pub record IsInFamily (rec : RefreshRecord) (access refresh : Text) (s s' : st.State)
      : Type 0 where
    pub segment : Text
    pub body : get_elem? (split b'.' access) 1 ≡ some segment
    pub read : TokenClaims JsonValue
    pub claims_read : claims_from_base64 p env segment ≡ ok read
    pub registered : st.State
    pub access_added :
        Done (st.add_to_group (family_group rec.family) read.jti read.exp) s registered
    pub kept : st.State
    pub refresh_stored :
        Done
          (st.store_refresh refresh
            (record { subject = rec.subject; audience = rec.audience; family = rec.family })
            (env_u64 env (codes "REFRESH_TOKEN_TTL_SECONDS") 2592000))
          registered
          kept
    pub read_clock : ℕ
    pub refresh_added :
        Done
          (st.add_to_group (family_group rec.family) (refresh_key refresh) (
            (p.clock read_clock + env_u64 env (codes "REFRESH_TOKEN_TTL_SECONDS") 2592000)
            % 2 ^ 64))
          kept
          s'

  -- A new pair for a record: the access token is generated, and then the pair is kept.
  abbrev pub Exchanged : RefreshRecord → Text → Text → Text → Here → Here → Type 0
  Exchanged rec issuer access refresh w w' =
      (generated : Here) × Ends
        (generate_token p env st source issuer rec.subject rec.audience none []) w access generated
      × IsRenewed issuer rec access
      × IsInFamily rec access refresh generated.store w'.store
