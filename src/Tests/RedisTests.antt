-- ===== src/Tests/RedisTests.antt =====
-- Runs of the Redis store.
use jwt_service_app.Base.{
  ℕ, ◌+◌, ◌≤◌, ◌≡◌, List, refl, true, false, none, some, [], ◌∷◌, ltb, arith, if◌then◌else◌,
}
use jwt_service_app.Base.Text.{Text, codes, text_eq}
use jwt_service_app.Store.{RefreshRecord, refresh_key}
use jwt_service_app.Redis.{
  RedisClient, store_jti, check_jti, delete_jti, add_to_group, revoke_group, claim_totp_code,
  mark_refresh_used, store_refresh, get_refresh,
}
use jwt_service_app.Redis.Keyspace.{Keyspace, Entry, zset, hash, string}
use jwt_service_app.Redis.Server.{ideal}
use jwt_service_app.Redis.Revocation.{
  revoke_group_kills, revoke_group_others, revoke_group-add_to_group_expired,
}
use jwt_service_app.Redis.Rotation.{get_refresh-store_refresh}
use jwt_service_app.Redis.Exchange.{
  start, mark, elsewhere, Marks-one_winner, mark_refresh_used-revoke_group,
}
use jwt_service_app.Redis.Registry.{
  Registry, Request, store, check, delete, claim, registry_run, Represents, perform_all,
  perform_all-Represents,
}
use jwt_service_app.Tests.Samples.{one_audience, empty, connected, sample_refresh}
use jwt_service_app.Redis.Refines.{keys}

abbrev one_jti : Text
one_jti = codes "u"

abbrev fresh : RedisClient ideal one_audience
fresh = connected empty

-- A group of two tokens, one of which lives to 30.
abbrev two_tokens : Keyspace
two_tokens k = elim (text_eq k (codes "g")) [
  | true ↦
      some (record { value = zset ((codes "t", 20) ∷ (codes "u", 30) ∷ []); deadline = some 30 })
  | false ↦ some (record { value = string (codes "1"); deadline = some 30 })
]

revoke_group_kills_example : false ≡ false
unfolding text_eq revoke_group jwt_service_app.Redis.Keyspace.zrembyscore
    jwt_service_app.Redis.Keyspace.zrange jwt_service_app.Redis.Keyspace.del check_jti
    jwt_service_app.Redis.Keyspace.exists
revoke_group_kills_example =
    revoke_group_kills ideal one_audience (codes "g") one_jti 10 11 2 30 (connected two_tokens)
      false (omega arith) refl (omega arith) refl refl

revoke_group_others_example : two_tokens (codes "other") ≡ two_tokens (codes "other")
unfolding text_eq revoke_group jwt_service_app.Redis.Keyspace.zrembyscore
    jwt_service_app.Redis.Keyspace.zrange jwt_service_app.Redis.Keyspace.del
revoke_group_others_example =
    revoke_group_others ideal one_audience (codes "g") (codes "other") 10 2 (connected two_tokens)
      (omega arith) refl refl refl

revoke_group-add_to_group_expired_example :
    (◌≡◌ {A = ℕ} 0 0)
    × ((key : Text)
        → text_eq (codes "g") key ≡ false
        → keys ideal one_audience
            (revoke_group ideal one_audience
              (codes "g")
              16
              (add_to_group ideal one_audience
                (codes "g")
                (codes "v")
                15
                10
                (connected two_tokens)).1).1
            key
          ≡ keys ideal one_audience (connected two_tokens) key)
unfolding add_to_group jwt_service_app.Redis.Keyspace.zadd text_eq
    jwt_service_app.Redis.Keyspace.expire_at revoke_group jwt_service_app.Redis.Keyspace.zrembyscore
    jwt_service_app.Redis.Keyspace.zrange jwt_service_app.Redis.Keyspace.del
revoke_group-add_to_group_expired_example =
    revoke_group-add_to_group_expired ideal one_audience (codes "g") (codes "v") 15 10 16 0
      (connected two_tokens) (omega arith) (omega arith) refl refl

abbrev stored_refresh : RedisClient ideal one_audience
stored_refresh = (store_refresh ideal one_audience (codes "i") sample_refresh 60 10 fresh).1

get_refresh-store_refresh_example :
    some sample_refresh ≡ (if ltb 12 (10 + 60) then some sample_refresh else none)
unfolding store_refresh jwt_service_app.Redis.Keyspace.hset_multiple
    jwt_service_app.Redis.Keyspace.expire get_refresh jwt_service_app.Redis.Keyspace.hgetall text_eq
    refresh_key
get_refresh-store_refresh_example =
    get_refresh-store_refresh ideal one_audience (codes "i") sample_refresh 60 10 12 fresh
      (codes "a") (some sample_refresh) (omega arith) refl refl refl refl

abbrev refresh_fields : List (Text × Text)
refresh_fields =
    (codes "sub", codes "s") ∷ (codes "aud", codes "a") ∷ (codes "family", codes "f") ∷ []

abbrev marked_once : RedisClient ideal one_audience
marked_once = (mark_refresh_used ideal one_audience (codes "i") 11 stored_refresh).1

abbrev stored_between : RedisClient ideal one_audience
stored_between = (store_jti ideal one_audience one_jti 5 11 marked_once).1

-- Two marks, of which the first is won, and a token stored in between.
Marks-one_winner_example : 1 ≤ 1
unfolding store_refresh jwt_service_app.Redis.Keyspace.hset_multiple
    jwt_service_app.Redis.Keyspace.expire text_eq refresh_key mark_refresh_used
    jwt_service_app.Redis.Keyspace.hset_nx store_jti jwt_service_app.Redis.Keyspace.set_ex
Marks-one_winner_example =
    Marks-one_winner ideal one_audience (codes "i") (some 70) stored_refresh
      (mark_refresh_used ideal one_audience (codes "i") 12 stored_between).1 1 refresh_fields refl
      (mark {c = stored_refresh} {n = 1} 12 false
        (elsewhere {c = stored_refresh} {c1 = marked_once} {c2 = stored_between} {n = 1}
          (mark {c = stored_refresh} {c1 = stored_refresh} {n = 0} 11 true (start stored_refresh)
            refl refl)
          refl)
        refl refl)

-- A family with one refresh token.
abbrev family : Keyspace
family k = elim (text_eq k (codes "g")) [
  | true ↦ some (record { value = zset ((refresh_key (codes "i"), 70) ∷ []); deadline = some 70 })
  | false ↦ some (record { value = hash refresh_fields; deadline = some 70 })
]

mark_refresh_used-revoke_group_example :
    (true ≡ true)
    × (keys ideal one_audience
          (mark_refresh_used ideal one_audience
            (codes "i")
            12
            (revoke_group ideal one_audience (codes "g") 11 (connected family)).1).1
          (refresh_key (codes "i"))
        ≡ some (record { value = hash ((codes "used", codes "1") ∷ []); deadline = none }))
unfolding text_eq refresh_key revoke_group jwt_service_app.Redis.Keyspace.zrembyscore
    jwt_service_app.Redis.Keyspace.zrange jwt_service_app.Redis.Keyspace.del mark_refresh_used
    jwt_service_app.Redis.Keyspace.hset_nx
mark_refresh_used-revoke_group_example =
    mark_refresh_used-revoke_group ideal one_audience (codes "g") (codes "i") 11 12 1 70
      (connected family) true (omega arith) refl (omega arith) refl refl

abbrev nothing_active : Registry
nothing_active k t = false

abbrev requests : List (ℕ × Request)
requests =
    (10, store one_jti 5)
    ∷ (12, check one_jti)
    ∷ (13, claim (codes "ab") 30)
    ∷ (14, claim (codes "ab") 30)
    ∷ (14, delete one_jti)
    ∷ (14, check one_jti)
    ∷ []

perform_all-Represents_example :
    (true ∷ true ∷ true ∷ false ∷ true ∷ false ∷ [] ≡ (registry_run requests nothing_active).0)
    × Represents
        (keys ideal one_audience (perform_all ideal one_audience requests fresh).1)
        (registry_run requests nothing_active).1
unfolding store_jti jwt_service_app.Redis.Keyspace.set_ex check_jti
    jwt_service_app.Redis.Keyspace.exists claim_totp_code jwt_service_app.Redis.Keyspace.set_nx_ex
    text_eq jwt_service_app.Store.totp_code_key delete_jti jwt_service_app.Redis.Keyspace.del
perform_all-Represents_example =
    perform_all-Represents ideal one_audience requests fresh nothing_active
      (true ∷ true ∷ true ∷ false ∷ true ∷ false ∷ []) (λ k t. refl) refl
