-- ===== src/Manager/Rotation/Steps.antt =====
-- jwt.rs: what `generate_token`, `register_access_in_family` and `issue_refresh` have done when they
-- end.
use jwt_service_app.Base.{
  ℕ, ◌+◌, ◌%◌, ◌^◌, ◌≡◌, ap, subst, ◌∙◌, inl, inr, none, some, [], Result, ok, ok_or, ok_or-ok,
  Result-cases, get_elem?,
}
use jwt_service_app.Base.Text.{Text, codes, split}
use jwt_service_app.Env.{Env, env_u64}
use jwt_service_app.Store.{JtiStore, JtiError, RefreshRecord, family_group, refresh_key}
use jwt_service_app.Token.Platform.{Platform, TokenClaims, broken}
use jwt_service_app.Token.Run.{World, Outcome, done, failed, panicked, ◌>>=◌, pure, lift, on_store}
use jwt_service_app.Token.Claims.{create_new, claims_from_base64}
use jwt_service_app.Token.Headers.{headers_for}
use jwt_service_app.Token.Signed.{KeySource, to_string}
use jwt_service_app.Token.Inversion.{Ends, >>=-Ends, lift-Ends, lift->>=-Ends, on_store->>=-Ends}
use jwt_service_app.Token.Issuance.{create_new-IsIssued}
use jwt_service_app.Manager.{generate_token, register_access_in_family, issue_refresh, private_key}
use jwt_service_app.Manager.Rotation.{Done, IsRenewed}

module _ (p : Platform) (env : Env) (st : JtiStore) (source : KeySource p) where
  open p use {JsonValue, PrivateKey}

  abbrev Here : Type 0
  Here = World st.State source.State

  pub generate_token-IsRenewed :
      (issuer : Text) (rec : RefreshRecord) (access : Text) (w w' : Here)
      → Ends (generate_token p env st source issuer rec.subject rec.audience none []) w access w'
      → IsRenewed p env st source issuer rec access
  unfolding generate_token
  generate_token-IsRenewed issuer rec access w w' h =
      let ((kid, key), w1, _, h1) =
        >>=-Ends (private_key p env st source)
          (λ (pair : Text × PrivateKey).
            create_new p env st issuer rec.subject rec.audience none [] >>= λ claims.
            lift (to_string p env (headers_for p env pair.0) claims pair.1))
          h in
      let (claims, w2, created, printed) =
        >>=-Ends (create_new p env st issuer rec.subject rec.audience none [])
          (λ claims. lift (to_string p env (headers_for p env kid) claims key)) h1 in
      record {
        claims = claims;
        issued_at = w1;
        issued =
            create_new-IsIssued p env st source.State issuer rec.subject rec.audience none [] w1 w2
              claims created;
        kid = kid;
        key = key;
        printed = (lift-Ends (to_string p env (headers_for p env kid) claims key) printed).0;
      }

  on_store-Done :
      (op : ℕ → st.State → Result JtiError (Unit {0}) × st.State) (w w' : Here) (u : Unit {0})
      → Ends (on_store p op) w u w'
      → Done p env st source op w.store w'.store
  on_store-Done op w w' u h = elim (Result-cases (op (p.clock w.reads) w.store).0) [
    | inl (a, answered) ↦ (
      p.clock w.reads,
      ap (λ (r : Result JtiError (Unit {0})). (r, (op (p.clock w.reads) w.store).1)) answered
          ∙ ap (λ (r : Outcome (Unit {0}) × Here). (ok tt, r.1.store)) h,
    )
    | inr (e, failing) ↦ absurd (cc (rw failing at h))
  ]

  after_store-Done :
      (op : ℕ → st.State → Result JtiError (Unit {0}) × st.State) (w : Here) (u : Unit {0})
      → (op (p.clock w.reads) w.store).0 ≡ ok u
      → Done p env st source op w.store (op (p.clock w.reads) w.store).1
  after_store-Done op w u answered = (
    p.clock w.reads,
    ap (λ (r : Result JtiError (Unit {0})). (r, (op (p.clock w.reads) w.store).1)) answered,
  )

  pub register-Done :
      (access family : Text) (w w' : Here) (u : Unit {0})
      → Ends (register_access_in_family p env st source access family) w u w'
      → (segment : Text) × (get_elem? (split b'.' access) 1 ≡ some segment)
        × (read : TokenClaims JsonValue) × (claims_from_base64 p env segment ≡ ok read)
        × Done p env st source
            (st.add_to_group (family_group family) read.jti read.exp)
            w.store
            w'.store
  unfolding register_access_in_family
  register-Done access family w w' u h =
      let (segment, there, h1) =
        lift->>=-Ends (ok_or broken (get_elem? (split b'.' access) 1)) _ h in
      let (read, is_read, h2) = lift->>=-Ends (claims_from_base64 p env segment) _ h1 in
      (
        segment,
        ok_or-ok broken (get_elem? (split b'.' access) 1) there,
        read,
        is_read,
        on_store-Done (st.add_to_group (family_group family) read.jti read.exp) w w' u h2,
      )

  abbrev ttl : ℕ
  ttl = env_u64 env (codes "REFRESH_TOKEN_TTL_SECONDS") 2592000

  -- The record of the refresh token is stored, and then its key is added to the group.
  abbrev Kept : RefreshRecord → st.State → Text → st.State → Type 0
  Kept rec s refresh s' =
      (kept : st.State) × Done p env st source
        (st.store_refresh refresh
          (record { subject = rec.subject; audience = rec.audience; family = rec.family }) ttl)
        s kept
      × (n : ℕ) × Done p env st source
          (st.add_to_group (family_group rec.family) (refresh_key refresh)
            ((p.clock n + ttl) % 2 ^ 64))
          kept s'

  unfoldable id_of : Text → Outcome Text → Text
  id_of id (done t) = t
  id_of id (failed e) = id
  id_of id panicked = id

  pub issue_refresh-Done :
      (rec : RefreshRecord) (refresh : Text) (w w' : Here)
      → Ends (issue_refresh p env st source rec.subject rec.audience rec.family) w refresh w'
      → Kept rec w.store refresh w'.store
  unfolding issue_refresh id_of
  issue_refresh-Done rec refresh w w' h =
      let id : Text = p.uuid w.drawn in
      let keep : ℕ → st.State → Result JtiError (Unit {0}) × st.State =
        st.store_refresh id
          (record { subject = rec.subject; audience = rec.audience; family = rec.family }) ttl in
      let w1 : Here = record w { drawn = w.drawn + 1 } in
      let (u, kept, h1) = on_store->>=-Ends p keep _ {w = w1} h in
      let s : st.State = (keep (p.clock w1.reads) w1.store).1 in
      let w2 : Here = record w1 { store = s; reads = w1.reads + 1 + 1 } in
      let add : ℕ → st.State → Result JtiError (Unit {0}) × st.State =
        st.add_to_group (family_group rec.family) (refresh_key id)
          ((p.clock (w1.reads + 1) + ttl) % 2 ^ 64) in
      let (v, added, h2) = on_store->>=-Ends p add (λ _. pure id) {w = w2} h1 in
      subst (λ (r : Outcome Text × Here). Kept rec w.store (id_of id r.0) r.1.store) h2
        (s, after_store-Done keep w1 u kept, w1.reads + 1, after_store-Done add w2 v added)
