-- ===== src/Redis/Refines.antt =====
-- Each operation of `RedisClient` that succeeds has the effect of its commands on the key space,
-- whatever the server: connecting changes no key, and the commands run one after another.

use jwt_service_app.Base.{
  ℕ, ◌<◌, ◌≡◌, none, some, List, [], ◌∷◌, length, ok, Result-cases, arith, inl, inr,
}
use jwt_service_app.Base.Text.{Text, codes}
use jwt_service_app.Store.{Op, RefreshRecord, refresh_key, totp_code_key}
use jwt_service_app.Redis.Server.{RedisServer, Command, Follows, exact}
use jwt_service_app.Redis.Keyspace
use jwt_service_app.Redis.Keyspace.{Keyspace, Effect}
use jwt_service_app.Redis.{
  AudienceJson, RedisClient, connection, run, then_do, reply, store_jti, check_jti, delete_jti,
  add_to_group, del_members, revoke_commands, revoke_group, store_commands, store_refresh,
  read_record, get_refresh, mark_refresh_used, claim_totp_code, is_some,
}

-- One effect after another.
abbrev pub then_effect :
    {A B : Type 0}
    → (ℕ → Keyspace → Effect A)
    → (A → ℕ → Keyspace → Effect B)
    → ℕ
    → Keyspace
    → Effect B
then_effect e f now ks = elim (e now ks) [ none ↦ none | some (a, ks') ↦ f a now ks' ]

abbrev pub give : {A : Type 0} → A → ℕ → Keyspace → Effect A
give a now ks = some (a, ks)

abbrev pub add_effect : Text → Text → ℕ → ℕ → Keyspace → Effect (Unit {0})
add_effect group jti expires_at =
    then_effect (Keyspace.zadd group jti expires_at) (λ _. Keyspace.expire_at group expires_at)

abbrev pub revoke_listed : Text → List Text → ℕ → Keyspace → Effect ℕ
revoke_listed group jtis =
    then_effect (Keyspace.del jtis)
      (λ _. then_effect (Keyspace.del (group ∷ [])) (λ _. give (length jtis)))

abbrev pub revoke_rest : Text → ℕ → Keyspace → Effect ℕ
revoke_rest group = then_effect (Keyspace.zrange group) (revoke_listed group)

abbrev pub revoke_effect : Text → ℕ → Keyspace → Effect ℕ
revoke_effect group now = then_effect (Keyspace.zrembyscore group now) (λ _. revoke_rest group) now

-- The fields of a refresh record, its audience printed.
abbrev pub fields_of : Text → RefreshRecord → List (Text × Text)
fields_of audience rec =
    (codes "sub", rec.subject) ∷ (codes "aud", audience) ∷ (codes "family", rec.family) ∷ []

abbrev pub refresh_effect : Text → List (Text × Text) → ℕ → ℕ → Keyspace → Effect (Unit {0})
refresh_effect key fields ttl =
    then_effect (Keyspace.hset_multiple key fields) (λ _. Keyspace.expire key ttl)

module _ (r : RedisServer) (json : AudienceJson) where
  abbrev pub keys : RedisClient r json → Keyspace
  keys c = r.view c.db

  -- A successful call has the effect, and the effect's result.
  abbrev pub Refines : {A : Type 0} → Op (RedisClient r json) A → (ℕ → Keyspace → Effect A) → Type 0
  Refines {A} op effect =
      (now : ℕ) (c : RedisClient r json) (a : A)
      → (op now c).0 ≡ ok a
      → effect now (keys c) ≡ some (a, keys (op now c).1)

  pub connection-keys :
      (now : ℕ) (c : RedisClient r json) → keys (connection r json now c).1 ≡ keys c
  unfolding connection
  connection-keys now c = ground (arith, r.connect_law now c.db)

  run_at :
      {A : Type 0} (commands : Command r.Db A) (effect : ℕ → Keyspace → Effect A) (now : ℕ)
      → ((db : r.Db) (a : A)
          → (commands now db).0 ≡ ok a
          → effect now (r.view db) ≡ some (a, r.view (commands now db).1))
      → (c : RedisClient r json) (a : A) → (run r json commands now c).0 ≡ ok a
      → effect now (keys c) ≡ some (a, keys (run r json commands now c).1)
  unfolding run
  run_at commands effect now h c a e =
      rw (← connection-keys now c) (ground (arith, h (connection r json now c).1.db a))

  pub run-Refines :
      {A : Type 0} (commands : Command r.Db A) (effect : ℕ → Keyspace → Effect A)
      → Follows r.view commands effect
      → Refines (run r json commands) effect
  run-Refines commands effect h now = run_at commands effect now (h now)

  pub then_do-Follows :
      {A B : Type 0} (m : Command r.Db A) (f : A → Command r.Db B) (e : ℕ → Keyspace → Effect A)
      (g : A → ℕ → Keyspace → Effect B)
      → Follows r.view m e
      → ((a : A) → Follows r.view (f a) (g a))
      → Follows r.view (then_do r json m f) (then_effect e g)
  then_do-Follows m f e g hm hf now db b h = elim (Result-cases (m now db).0) [
    | inl (a, done) ↦ ground (arith, hm now db a done, hf a now (m now db).1 b)
    | inr (x, failed) ↦ ground arith
  ]

  pub reply-Follows :
      {A : Type 0} (a : A) → Follows r.view (reply r json a) (λ now ks. some (a, ks))
  reply-Follows a now db b h = ground arith

  pub store_jti-Refines :
      (jti : Text) (ttl : ℕ)
      → Refines (store_jti r json jti ttl) (Keyspace.set_ex jti (codes "1") ttl)
  unfolding store_jti
  store_jti-Refines jti ttl =
      run-Refines _ (Keyspace.set_ex jti (codes "1") ttl) (r.set_ex_law jti (codes "1") ttl)

  pub check_jti-Refines : (jti : Text) → Refines (check_jti r json jti) (Keyspace.exists jti)
  unfolding check_jti
  check_jti-Refines jti = run-Refines _ (Keyspace.exists jti) (r.exists_law jti)

  pub delete_jti-Refines : (jti : Text) → Refines (delete_jti r json jti) (Keyspace.del (jti ∷ []))
  unfolding delete_jti
  delete_jti-Refines jti = run-Refines _ (Keyspace.del (jti ∷ [])) (r.del_law (jti ∷ []))

  pub add_to_group-Refines :
      (group jti : Text) (expires_at : ℕ)
      → expires_at < exact
      → Refines (add_to_group r json group jti expires_at) (add_effect group jti expires_at)
  unfolding add_to_group
  add_to_group-Refines group jti expires_at h = run-Refines _ (add_effect group jti expires_at) (
      then_do-Follows _ _ (Keyspace.zadd group jti expires_at)
        (λ _. Keyspace.expire_at group expires_at) (r.zadd_law group jti expires_at h)
        (λ _. r.expire_at_law group expires_at h))

  del_members-Follows :
      (jtis : List Text) → Follows r.view (del_members r json jtis) (Keyspace.del jtis)
  unfolding Keyspace.del
  del_members-Follows [] now db a h = ground arith
  del_members-Follows (j ∷ jtis) now db a h = r.del_law (j ∷ jtis) now db a h

  revoke_commands-Follows :
      (group : Text) (now : ℕ) (db : r.Db) (n : ℕ)
      → now < exact
      → (revoke_commands r json group now db).0 ≡ ok n
      → revoke_effect group now (r.view db)
        ≡ some (n, r.view (revoke_commands r json group now db).1)
  revoke_commands-Follows group now db n h =
      then_do-Follows (r.zrembyscore group now) _ (Keyspace.zrembyscore group now)
        (λ _. revoke_rest group) (r.zrembyscore_law group now h)
        (λ _.
          then_do-Follows (r.zrange group) _ (Keyspace.zrange group)
            (λ jtis. revoke_listed group jtis) (r.zrange_law group)
            (λ jtis.
              then_do-Follows (del_members r json jtis) _ (Keyspace.del jtis)
                (λ _. then_effect (Keyspace.del (group ∷ [])) (λ _. give (length jtis)))
                (del_members-Follows jtis)
                (λ _.
                  then_do-Follows (r.del (group ∷ [])) _ (Keyspace.del (group ∷ []))
                    (λ _. give (length jtis)) (r.del_law (group ∷ []))
                    (λ _. reply-Follows (length jtis)))))
        now db n

  pub revoke_group-Refines :
      (group : Text) (now : ℕ) (c : RedisClient r json) (n : ℕ)
      → now < exact
      → (revoke_group r json group now c).0 ≡ ok n
      → revoke_effect group now (keys c) ≡ some (n, keys (revoke_group r json group now c).1)
  unfolding revoke_group
  revoke_group-Refines group now c n h =
      run_at (revoke_commands r json group) (revoke_effect group) now
        (λ db m. revoke_commands-Follows group now db m h) c n

  refresh_commands-Follows :
      (key audience : Text) (rec : RefreshRecord) (ttl : ℕ)
      → ttl < exact
      → Follows r.view
          (store_commands r json key audience rec ttl)
          (refresh_effect key (fields_of audience rec) ttl)
  refresh_commands-Follows key audience rec ttl h =
      then_do-Follows _ _ (Keyspace.hset_multiple key (fields_of audience rec))
        (λ _. Keyspace.expire key ttl) (r.hset_multiple_law key (fields_of audience rec))
        (λ _. r.expire_law key ttl h)

  store_refresh-run :
      (id : Text) (rec : RefreshRecord) (ttl : ℕ) (audience : Text)
      → json.print rec.audience ≡ some audience
      → (now : ℕ) (c : RedisClient r json)
      → store_refresh r json id rec ttl now c
        ≡ run r json (store_commands r json (refresh_key id) audience rec ttl) now c
  unfolding store_refresh
  store_refresh-run id rec ttl audience printed now c = rw (printed, store_refresh)

  pub store_refresh-Refines :
      (id : Text) (rec : RefreshRecord) (ttl : ℕ) (audience : Text)
      → ttl < exact
      → json.print rec.audience ≡ some audience
      → Refines
          (store_refresh r json id rec ttl)
          (refresh_effect (refresh_key id) (fields_of audience rec) ttl)
  store_refresh-Refines id rec ttl audience h printed now c a =
      rw (store_refresh-run id rec ttl audience printed now c) (
        run-Refines _ (refresh_effect (refresh_key id) (fields_of audience rec) ttl)
          (refresh_commands-Follows (refresh_key id) audience rec ttl h) now c a)

  pub get_refresh-Refines :
      (id : Text)
      → Refines
          (get_refresh r json id)
          (then_effect (Keyspace.hgetall (refresh_key id)) (λ h. give (read_record r json h)))
  unfolding get_refresh
  get_refresh-Refines id now c a e =
      elim (Result-cases (run r json (r.hgetall (refresh_key id)) now c).0) [
        | inl (h, read) ↦ ground (
          arith,
          run-Refines (r.hgetall (refresh_key id)) (Keyspace.hgetall (refresh_key id))
              (r.hgetall_law (refresh_key id)) now c h read,
        )
        | inr (x, failed) ↦ ground arith
      ]

  pub mark_refresh_used-Refines :
      (id : Text)
      → Refines
          (mark_refresh_used r json id)
          (Keyspace.hset_nx (refresh_key id) (codes "used") (codes "1"))
  unfolding mark_refresh_used
  mark_refresh_used-Refines id =
      run-Refines _ (Keyspace.hset_nx (refresh_key id) (codes "used") (codes "1"))
        (r.hset_nx_law (refresh_key id) (codes "used") (codes "1"))

  pub claim_totp_code-Refines :
      (hash : Text) (ttl : ℕ)
      → Refines (claim_totp_code r json hash ttl) (
          then_effect
            (Keyspace.set_nx_ex (totp_code_key hash) (codes "1") ttl)
            (λ o. give (is_some o)))
  unfolding claim_totp_code
  claim_totp_code-Refines hash ttl now c a e =
      elim (Result-cases (run r json (r.set_nx_ex (totp_code_key hash) (codes "1") ttl) now c).0) [
        | inl (o, created) ↦ ground (
          arith,
          run-Refines (r.set_nx_ex (totp_code_key hash) (codes "1") ttl)
              (Keyspace.set_nx_ex (totp_code_key hash) (codes "1") ttl)
              (r.set_nx_ex_law (totp_code_key hash) (codes "1") ttl) now c o created,
        )
        | inr (x, failed) ↦ ground arith
      ]
