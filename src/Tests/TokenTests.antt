-- ===== src/Tests/TokenTests.antt =====
-- Runs of models/jwt.rs and jwt.rs on a small platform: base64 moves every byte up by 47, and one
-- header and one set of claims have a printed form.
use jwt_service_app.Manager.{refresh_token_pair}
use jwt_service_app.Manager.Reuse.{refresh_token_pair-revokes}
use jwt_service_app.Token.Run.{failed, World}
use jwt_service_app.Redis.Server.{ideal}
use jwt_service_app.Base.{
  ℕ, ◌+◌, ◌-◌, ◌≤◌, ◌≡◌, ◌≢◌, refl, sym, ap, ◌∙◌, Bool, true, false, not, ◌&&◌, ◌==◌, leb,
  Bool-cases, Option, none, some, List, [], ◌∷◌, ◌++◌, map, all, is_empty, Result, ok, err, arith,
  inl, inr, if◌then◌else◌,
}
use jwt_service_app.Base.Text.{Text, codes, text_eq}
use jwt_service_app.Env.{env_u64}
use jwt_service_app.Store.{JtiStore, family_group}
use jwt_service_app.Redis.{RedisClient}
use jwt_service_app.Redis.Keyspace.{Keyspace, string, hash, zset}
use jwt_service_app.Token.Platform.{Platform, TokenClaims, TokenHeaders, not_valid}
use jwt_service_app.Token.Claims.{create_new, expiration_seconds}
use jwt_service_app.Token.Signed.{KeySource, dotted, from_string}
use jwt_service_app.Token.Soundness.{IsVerified, from_string-IsVerified}
use jwt_service_app.Token.Issuance.{IsIssued, create_new-IsIssued}
use jwt_service_app.Tests.Samples.{no_variables, one_audience, empty, connected, store}

abbrev pub sample_claims : TokenClaims (Unit {0})
sample_claims = record {
  iss = codes "h";
  sub = codes "s";
  aud = codes "a" ∷ [];
  exp = 50;
  iat = 1;
  nbf = 1;
  jti = codes "u";
  extra = [];
}

abbrev pub sample_headers : TokenHeaders
sample_headers = record { alg = codes "RS256"; kid = codes "k"; typ = codes "JWT"; jku = none }

abbrev pub toy : Platform
toy = record {
  JsonValue = Unit;
  map_size = λ m. some 2;
  exact = λ m. true;
  print_claims = λ c. if text_eq c.jti (codes "u") then some (codes "C") else none;
  parse_claims = λ t. if text_eq t (codes "C") then some sample_claims else none;
  print_headers = λ h. if text_eq h.kid (codes "k") then some (codes "H") else none;
  parse_headers = λ t. if text_eq t (codes "H") then some sample_headers else none;
  encode = map (λ b. b + 47);
  decode = λ t. some (map (λ c. c - 47) t);
  utf8 = λ t. t;
  from_utf8 = some;
  PrivateKey = Unit;
  PublicKey = Unit;
  sign = λ digest key message. some message;
  verify = λ digest key signature message. some (text_eq signature message);
  uuid = λ n. codes "u";
  clock = λ n. 10;
  latest = 1000000;
  earliest = 1000000;
}

abbrev pub keys : KeySource toy
keys = record {
  State = Unit;
  get_private_key = λ now s. (some (codes "k", tt), s);
  get_public_key = λ kid now s. (some tt, s);
}

abbrev pub head : Text
head = toy.encode (codes "H")

abbrev pub body : Text
body = toy.encode (codes "C")

abbrev pub sample_token : Text
sample_token = dotted (dotted head body) (toy.encode (dotted head body))

abbrev pub with_jti : Keyspace
with_jti k =
    if text_eq k (codes "u")
    then some (record { value = string (codes "1"); deadline = some 90 })
    else none

abbrev pub world : Keyspace → World (RedisClient ideal one_audience) (Unit {0})
world ks = record { store = connected ks; keys = tt; drawn = 0; reads = 0 }

from_string-IsVerified_example :
    IsVerified toy no_variables store keys sample_token
      (codes "h")
      (codes "a")
      (world with_jti)
      sample_headers
      sample_claims
unfolding from_string jwt_service_app.Base.Text.split
    jwt_service_app.Token.Headers.headers_from_base64
    jwt_service_app.Token.Claims.claims_from_base64 jwt_service_app.Token.Claims.claims_valid
    jwt_service_app.Redis.check_jti jwt_service_app.Redis.Keyspace.exists text_eq
from_string-IsVerified_example =
    from_string-IsVerified toy no_variables store keys sample_token (codes "h") (codes "a")
      (world with_jti)
      (from_string toy no_variables store keys sample_token (codes "h") (codes "a")
        (world with_jti)).1
      sample_headers sample_claims refl

abbrev issued : TokenClaims (Unit {0})
issued = record {
  iss = codes "h";
  sub = codes "s";
  aud = codes "a" ∷ [];
  exp = 70;
  iat = 10;
  nbf = 10;
  jti = codes "u";
  extra = [];
}

create_new-IsIssued_example :
    IsIssued toy no_variables store
      (Unit {0})
      (world empty)
      (codes "h")
      (codes "s")
      (codes "a" ∷ [])
      (some 60)
      []
      issued
unfolding create_new jwt_service_app.Base.Text.parse_uint jwt_service_app.Token.Claims.claims_valid
    jwt_service_app.Redis.check_jti jwt_service_app.Redis.store_jti
    jwt_service_app.Redis.add_to_group jwt_service_app.Redis.Keyspace.exists
    jwt_service_app.Redis.Keyspace.set_ex jwt_service_app.Redis.Keyspace.zadd
    jwt_service_app.Redis.Keyspace.expire_at text_eq env_u64 jwt_service_app.Store.subject_group
create_new-IsIssued_example =
    create_new-IsIssued toy no_variables store (Unit {0}) (codes "h") (codes "s") (codes "a" ∷ [])
      (some 60) [] (world empty)
      (create_new toy no_variables store {K = Unit {0}} (codes "h") (codes "s") (codes "a" ∷ [])
        (some 60) [] (world empty)).1
      issued refl

-- A refresh record that was used before.
abbrev used_refresh : Keyspace
used_refresh k =
    if text_eq k (codes "refresh:i")
    then some (record {
      value = hash (
          (codes "sub", codes "s")
          ∷ (codes "aud", codes "a")
          ∷ (codes "family", codes "f")
          ∷ (codes "used", codes "1")
          ∷ []);
      deadline = some 90;
    })
    else none

-- The family of the token has a member that is active until 80.
abbrev live_family : Keyspace
live_family k =
    if text_eq k (codes "group:family:f")
    then some (record { value = zset ((codes "v", 80) ∷ []); deadline = some 80 })
    else if text_eq k (codes "v")
    then some (record { value = string (codes "1"); deadline = some 80 })
    else used_refresh k

abbrev live_world : World (RedisClient ideal one_audience) (Unit {0})
live_world = world live_family

refresh_token_pair-revokes_example :
    ((refresh_token_pair toy no_variables store keys (codes "i") (codes "h") live_world).0
      ≡ failed not_valid)
    × ((refresh_token_pair toy no_variables store keys (codes "i") (codes "h") live_world).1.drawn
        ≡ 0)
    × (false ≡ false)
unfolding jwt_service_app.Redis.get_refresh jwt_service_app.Redis.Keyspace.hgetall text_eq
    jwt_service_app.Store.refresh_key jwt_service_app.Redis.mark_refresh_used
    jwt_service_app.Redis.Keyspace.hset_nx jwt_service_app.Redis.revoke_group
    jwt_service_app.Redis.Keyspace.zrembyscore jwt_service_app.Redis.Keyspace.zrange
    jwt_service_app.Redis.Keyspace.del family_group refresh_token_pair
    jwt_service_app.Redis.check_jti jwt_service_app.Redis.Keyspace.exists
refresh_token_pair-revokes_example =
    refresh_token_pair-revokes toy no_variables ideal one_audience keys (codes "i") (codes "h")
      (codes "v") live_world
      (record { subject = codes "s"; audience = codes "a" ∷ []; family = codes "f" }) 1 80 11 false
      refl refl refl (omega arith) refl (omega arith) refl
