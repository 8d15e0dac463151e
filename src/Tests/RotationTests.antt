-- ===== src/Tests/RotationTests.antt =====
-- A run of `refresh_token_pair` in which a refresh token is exchanged for a new pair.
use jwt_service_app.Base.{ℕ, ◌+◌, ◌≡◌, refl, true, none, some, List, [], ◌∷◌, ok, if◌then◌else◌}
use jwt_service_app.Base.Text.{Text, codes, text_eq}
use jwt_service_app.Env.{Env}
use jwt_service_app.Store.{JtiStore, RefreshRecord}
use jwt_service_app.Token.Run.{World}
use jwt_service_app.Manager.{refresh_token_pair}
use jwt_service_app.Manager.Reuse.{looked_up, marked}
use jwt_service_app.Manager.Rotation.{Exchanged}
use jwt_service_app.Manager.Rotation.Exchanges.{refresh_token_pair-IsInFamily}
use jwt_service_app.Tests.Samples.{sample_refresh}
use jwt_service_app.Tests.TokenTests.{sample_token}
use jwt_service_app.Tests.RoundTripTests.{early, early_keys}

abbrev short_lived : Env
short_lived name =
    if text_eq name (codes "TOKEN_EXPIRATION_SECONDS") then some (codes "49") else none

-- A store that counts the changes, knows every identifier, and has one refresh record that was not
-- used before.
abbrev counting : JtiStore
counting = record {
  State = ℕ;
  ping = λ now n. (ok tt, n);
  store_jti = λ jti ttl now n. (ok tt, n + 1);
  check_jti = λ jti now n. (ok true, n);
  delete_jti = λ jti now n. (ok tt, n + 1);
  add_to_group = λ group member exp now n. (ok tt, n + 1);
  revoke_group = λ group now n. (ok 0, n + 1);
  store_refresh = λ id rec ttl now n. (ok tt, n + 1);
  get_refresh = λ id now n. (ok (some sample_refresh), n);
  mark_refresh_used = λ id now n. (ok true, n + 1);
  claim_totp_code = λ hash ttl now n. (ok true, n + 1);
}

abbrev start : World ℕ (Unit {0})
start = record { store = 0; keys = tt; drawn = 0; reads = 0 }

abbrev after_exchange : World ℕ (Unit {0})
after_exchange =
    (refresh_token_pair early short_lived counting early_keys (codes "i") (codes "h") start).1

refresh_token_pair-IsInFamily_example :
    (rec : RefreshRecord) × ((looked_up early short_lived counting early_keys (codes "i") start).0
      ≡ ok (some rec))
    × ((marked early short_lived counting early_keys (codes "i") start).0 ≡ ok true)
    × Exchanged early short_lived counting early_keys rec
        (codes "h")
        sample_token
        (codes "u")
        (record start {
          store = (marked early short_lived counting early_keys (codes "i") start).1;
          reads = 0 + 1 + 1;
        })
        after_exchange
unfolding refresh_token_pair text_eq jwt_service_app.Manager.generate_token
    jwt_service_app.Token.Claims.create_new jwt_service_app.Base.Text.parse_uint
    jwt_service_app.Token.Claims.claims_valid jwt_service_app.Env.env_u64
    jwt_service_app.Token.Signed.to_string jwt_service_app.Token.Headers.headers_to_base64
    jwt_service_app.Token.Claims.claims_to_base64 jwt_service_app.Token.Headers.headers_for
    jwt_service_app.Base.Text.split jwt_service_app.Token.Claims.claims_from_base64
refresh_token_pair-IsInFamily_example =
    refresh_token_pair-IsInFamily early short_lived counting early_keys (codes "i") (codes "h")
      sample_token (codes "u") start after_exchange refl
