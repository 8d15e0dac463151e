-- ===== src/Manager/Rotation/Exchanges.antt =====
-- jwt.rs: the exchange of a refresh token for a new pair, `refresh_token_pair`.
use jwt_service_app.Base.{
  ◌+◌, ◌≡◌, refl, ap, subst, ◌∙◌, Bool, true, false, Option, none, some, [], ok, if◌then◌else◌,
}
use jwt_service_app.Base.Text.{Text}
use jwt_service_app.Env.{Env}
use jwt_service_app.Store.{JtiStore, RefreshRecord, family_group}
use jwt_service_app.Token.Platform.{Platform, not_valid}
use jwt_service_app.Token.Run.{
  World, Outcome, done, failed, panicked, ◌>>=◌, ◌>>◌, pure, fail, on_store,
}
use jwt_service_app.Token.Signed.{KeySource, TokenRun}
use jwt_service_app.Token.Inversion.{Ends, >>=-Ends, lift->>=-Ends, on_store->>=-Ends}
use jwt_service_app.Manager.{
  generate_token, register_access_in_family, issue_refresh, refresh_token_pair, known,
}
use jwt_service_app.Manager.Reuse.{looked_up, marked}
use jwt_service_app.Manager.Rotation.{Exchanged}
use jwt_service_app.Manager.Rotation.Steps.{
  generate_token-IsRenewed, register-Done, issue_refresh-Done,
}

module _ (p : Platform) (env : Env) (st : JtiStore) (source : KeySource p) where
  open p use {JsonValue, PrivateKey}

  abbrev Here : Type 0
  Here = World st.State source.State

  known-some :
      (o : Option RefreshRecord) (rec : RefreshRecord)
      → known p env st source o ≡ ok rec
      → o ≡ some rec
  known-some none rec h = absurd (cc h)
  known-some (some r) rec h = cc

  -- A token that was claimed for the first time is exchanged for a new pair.
  unfoldable exchange : RefreshRecord → Text → TokenRun p env st source (Text × Text)
  unfolding generate_token register_access_in_family issue_refresh
  exchange rec issuer = do
    access ← generate_token p env st source issuer rec.subject rec.audience none []
    register_access_in_family p env st source access rec.family
    refresh ← issue_refresh p env st source rec.subject rec.audience rec.family
    pure (access, refresh)

  parts-Exchanged :
      (rec : RefreshRecord) (issuer access refresh : Text) (w w1 w2 w3 : Here) (u : Unit {0})
      → Ends (generate_token p env st source issuer rec.subject rec.audience none []) w access w1
      → Ends (register_access_in_family p env st source access rec.family) w1 u w2
      → Ends (issue_refresh p env st source rec.subject rec.audience rec.family) w2 refresh w3
      → Exchanged p env st source rec issuer access refresh w w3
  parts-Exchanged rec issuer access refresh w w1 w2 w3 u generates registers issues =
      let (segment, body, read, claims_read, access_added) =
        register-Done p env st source access rec.family w1 w2 u registers in
      let (kept, refresh_stored, read_clock, refresh_added) =
        issue_refresh-Done p env st source rec refresh w2 w3 issues in
      (
        w1,
        generates,
        generate_token-IsRenewed p env st source issuer rec access w w1 generates,
        record {
          segment = segment;
          body = body;
          read = read;
          claims_read = claims_read;
          registered = w2.store;
          access_added = access_added;
          kept = kept;
          refresh_stored = refresh_stored;
          read_clock = read_clock;
          refresh_added = refresh_added;
        },
      )

  unfoldable pair_of : Text × Text → Outcome (Text × Text) → Text × Text
  pair_of other (done pair) = pair
  pair_of other (failed e) = other
  pair_of other panicked = other

  exchange-Exchanged :
      (rec : RefreshRecord) (issuer access refresh : Text) (w w' : Here)
      → Ends (exchange rec issuer) w (access, refresh) w'
      → Exchanged p env st source rec issuer access refresh w w'
  unfolding exchange pair_of
  exchange-Exchanged rec issuer access refresh w w' h =
      let (a, w1, generates, h1) =
        >>=-Ends (generate_token p env st source issuer rec.subject rec.audience none []) _ h in
      let (u, w2, registers, h2) =
        >>=-Ends (register_access_in_family p env st source a rec.family) _ h1 in
      let (r, w3, issues, h3) =
        >>=-Ends (issue_refresh p env st source rec.subject rec.audience rec.family) _ h2 in
      subst
        (λ (x : Outcome (Text × Text) × Here).
          Exchanged p env st source rec issuer (pair_of (a, r) x.0).0 (pair_of (a, r) x.0).1 w x.1)
        h3 (parts-Exchanged rec issuer a r w w1 w2 w3 u generates registers issues)

  unfoldable refuse : RefreshRecord → TokenRun p env st source (Text × Text)
  refuse rec = do revoked ← on_store p (st.revoke_group (family_group rec.family)); fail not_valid

  first_use-Exchanged :
      (first : Bool) (rec : RefreshRecord) (issuer access refresh : Text) (w w' : Here)
      → Ends (if first then exchange rec issuer else refuse rec) w (access, refresh) w'
      → (first ≡ true) × Exchanged p env st source rec issuer access refresh w w'
  unfolding refuse
  first_use-Exchanged true rec issuer access refresh w w' h =
      (refl, exchange-Exchanged rec issuer access refresh w w' h)
  first_use-Exchanged false rec issuer access refresh w w' h =
      absurd (cc ((on_store->>=-Ends p (st.revoke_group (family_group rec.family)) _ {w = w} h).2))

  -- If `refresh_token_pair` answers with a pair, then the record of the refresh token was found and the
  -- token was claimed for the first time; after that the access token was generated for the
  -- subject and the audience of the record, with the issuer given and no custom claims; and from
  -- then on the store changed by three operations, which put the `jti` of the access token in the
  -- group of the record's family, stored the same record under the new refresh token, and put the
  -- key of that token in the group.
  pub refresh_token_pair-IsInFamily :
      (token issuer access refresh : Text) (w w' : Here)
      → Ends (refresh_token_pair p env st source token issuer) w (access, refresh) w'
      → (rec : RefreshRecord) × ((looked_up p env st source token w).0 ≡ ok (some rec))
        × ((marked p env st source token w).0 ≡ ok true)
        × Exchanged p env st source rec issuer access refresh
            (record w { store = (marked p env st source token w).1; reads = w.reads + 1 + 1 })
            w'
  unfolding refresh_token_pair exchange refuse
  refresh_token_pair-IsInFamily token issuer access refresh w w' h =
      let (o, found, h1) = on_store->>=-Ends p (st.get_refresh token) _ {w = w} h in
      let (rec, is_known, h2) = lift->>=-Ends (known p env st source o) _ h1 in
      let w1 : Here = record w {
        store = (looked_up p env st source token w).1;
        reads = w.reads + 1;
      } in
      let (first, marks, h3) = on_store->>=-Ends p (st.mark_refresh_used token) _ {w = w1} h2 in
      let (is_first, exchanged) = first_use-Exchanged first rec issuer access refresh _ w' h3 in
      (rec, found ∙ ap ok (known-some o rec is_known), marks ∙ ap ok is_first, exchanged)
