-- ===== src/Handlers/Lifecycle.antt =====
-- handlers.rs: a token that `create_token` answers with is accepted by `verify_token` later.
use jwt_service_app.Base.{
  ℕ, ◌+◌, ◌≤◌, ◌<◌, ◌≡◌, refl, ap, ◌∙◌, true, false, Bool-cases, inl, inr, none, some, ok,
}
use jwt_service_app.Base.Text.{Text, codes, contains}
use jwt_service_app.Env.{Env, unwrap_or}
use jwt_service_app.Issuer.{is_allowed}
use jwt_service_app.Store.{JtiStore}
use jwt_service_app.Token.Serde.{ReadsBack}
use jwt_service_app.Token.Platform.{Platform, KeyPair, TokenClaims}
use jwt_service_app.Token.Run.{World, Outcome, done, failed, panicked}
use jwt_service_app.Token.Claims.{expiration_seconds, add_seconds}
use jwt_service_app.Token.Headers.{supported_algorithms}
use jwt_service_app.Token.Signed.{KeySource}
use jwt_service_app.Token.Inversion.{Ends}
use jwt_service_app.Manager.{generate_token, verify_token}
use jwt_service_app.Manager.Lifecycle.{verify_token-generate_token}
use jwt_service_app.Handlers.{
  text, TokenRequest, TokenResponse, issuer_for_issuance, issue, create_token, verify_handler,
  without_refresh, issued_response, issue_error,
}

module _ (p : Platform) (env : Env) (st : JtiStore) (source : KeySource p) where
  open p use {JsonValue, PrivateKey, PublicKey}

  abbrev Here : Type 0
  Here = World st.State source.State

  -- A success without a refresh token comes from an allowed issuer and one issued token.
  create_token-issued :
      (req : TokenRequest JsonValue) (host : Text) (w : Here) (response : TokenResponse)
      → req.refresh ≡ false
      → (create_token p env st source req (text host) w).0 ≡ some (ok response)
      → (is_allowed env host ≡ true)
        × (w1 : Here) × Ends
            (generate_token p env st source host req.sub req.aud req.ttl req.claims)
            w
            response.token
            w1
  unfolding create_token issuer_for_issuance issue
  create_token-issued req host w response plain h = elim (Bool-cases (is_allowed env host)) [
    | inr other ↦ absurd (cc (rw (other, create_token, issuer_for_issuance) at h))
    | inl allowed ↦
        go allowed (generate_token p env st source host req.sub req.aud req.ttl req.claims w) refl
          (rw (allowed, create_token, issuer_for_issuance, plain, issue) at h)
  ]
    where
      go :
          is_allowed env host ≡ true
          → (o : Outcome Text × Here)
          → generate_token p env st source host req.sub req.aud req.ttl req.claims w ≡ o
          → (issued_response p env st source
              (issue_error p env st source)
              (without_refresh p env st source o)).0
            ≡ some (ok response)
          → (is_allowed env host ≡ true)
            × (w1 : Here) × Ends
                (generate_token p env st source host req.sub req.aud req.ttl req.claims)
                w
                response.token
                w1
      go allowed (failed e, w1) ran answered = absurd (cc answered)
      go allowed (panicked, w1) ran answered = absurd (cc answered)
      go allowed (done token, w1) ran answered =
          let whole : record { token = token; refresh_token = none } ≡ response = cc answered in
          let same : token ≡ response.token = ap (λ (r : TokenResponse). r.token) whole in
          (allowed, w1, ran ∙ ap (λ t. (done t, w1)) same)

  verify_handler-accepts :
      (token one host : Text) (v v' : Here) (claims : TokenClaims JsonValue)
      → is_allowed env host ≡ true
      → Ends (verify_token p env st source token host one) v claims v'
      → (verify_handler p env st source (record { token = token; audience = one }) (text host) v).0
        ≡ some (ok claims)
  unfolding verify_handler
  verify_handler-accepts token one host v v' claims allowed ended =
      rw (allowed, ended, verify_handler) refl

  -- What `POST /tokens` answers with, without a refresh token, `POST /tokens/verify` accepts in any later
  -- state of the process: for the same host, for each audience of the request, from the moment of
  -- issue until the token expires, as long as the store says that its `jti` is active, and the public
  -- key of its `kid` belongs to the private key that signed. The claims are those of the request. The
  -- algorithm that is set is a supported one, and the custom claims are a map that JSON keeps.
  pub verify_handler-create_token :
      (req : TokenRequest JsonValue) (host one kid : Text) (response : TokenResponse) (w v : Here)
      (key : PrivateKey) (public : PublicKey) (seconds exp : ℕ)
      → ReadsBack p
      → p.exact req.claims ≡ true
      → contains supported_algorithms (unwrap_or (codes "RS256") (env (codes "TOKEN_ALGORITHM")))
        ≡ true
      → req.refresh ≡ false
      → (source.get_private_key (p.clock w.reads) w.keys).0 ≡ some (kid, key)
      → (create_token p env st source req (text host) w).0 ≡ some (ok response)
      → contains req.aud one ≡ true
      → expiration_seconds p env req.ttl ≡ ok seconds
      → add_seconds p.latest p.earliest (p.clock (w.reads + 1)) seconds ≡ some exp
      → p.clock (w.reads + 1) ≤ p.clock (v.reads + 1)
      → p.clock (v.reads + 1) < exp
      → (source.get_public_key kid (p.clock v.reads) v.keys).0 ≡ some public
      → KeyPair p key public
      → (st.check_jti (p.uuid w.drawn) (p.clock (v.reads + 1 + 1)) v.store).0 ≡ ok true
      → (claims : TokenClaims JsonValue) × ((verify_handler p env st source
            (record { token = response.token; audience = one })
            (text host)
            v).0
          ≡ some (ok claims))
        × (claims.sub ≡ req.sub)
        × (claims.jti ≡ p.uuid w.drawn)
        × (claims.extra ≡ req.claims)
  verify_handler-create_token req host one kid response w v key public seconds exp law exact
        supported plain has_key created asked lifetime expiry begun alive found pair active =
      let (allowed, w1, issued) = create_token-issued req host w response plain created in
      let (claims, v', ended, sub, jti, extra) =
        verify_token-generate_token p env st source host req.sub req.aud req.ttl req.claims w w1 v
          response.token kid one key public seconds exp law exact supported has_key issued asked
          lifetime expiry begun alive found pair active in
      (
        claims,
        verify_handler-accepts response.token one host v v' claims allowed ended,
        sub,
        jti,
        extra,
      )
