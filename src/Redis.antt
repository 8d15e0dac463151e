-- ===== src/Redis.antt =====
-- redis.rs: `RedisClient`, the store on top of Redis. Logging and the metrics of each command are
-- left out: they change no result. The timeouts and retries that Redis/Settings
-- gives the connection manager show as the server's (a command that times out fails).
pub mod Settings
pub mod Keyspace
pub mod Server
pub mod Refines
pub mod Groups
pub mod Members
pub mod Revocation
pub mod Records
pub mod Activity
pub mod Rotation
pub mod Registry
pub mod Exchange
use jwt_service_app.Base.{
  ℕ, ◌+◌, Bool, true, false, ◌||◌, Option, none, some, List, [], ◌∷◌, length, is_empty, Result, ok,
  err, map_err, and_then, if◌then◌else◌,
}
use jwt_service_app.Base.Text.{Text, codes}
use jwt_service_app.Store.{
  JtiError, bad_connection, wrong_operation, RefreshRecord, JtiStore, Op, refresh_key,
  totp_code_key,
}
use Server.{RedisServer, Command, RedisError}
use Keyspace.{hash_get}

-- The errors of a command as the store's errors.
unfoldable pub classify : RedisError → JtiError
classify error =
    if error.is_timeout || error.is_connection_dropped || error.is_connection_refusal
    then bad_connection
    else wrong_operation

-- serde_json on the audience of a refresh record.
pub record AudienceJson : Type 0 where
  pub print : List Text → Option Text
  pub parse : Text → Option (List Text)

abbrev pub is_some : {A : Type 0} → Option A → Bool
is_some none = false
is_some (some _) = true

module _ (r : RedisServer) (json : AudienceJson) where
  -- The database, and whether the connection manager has been created.
  pub record RedisClient : Type 0 where
    pub db : r.Db
    pub manager : Bool

  -- The connection of the first command; a failed attempt leaves the cell empty.
  unfoldable pub connection : Op RedisClient (Unit {0})
  connection now c =
      if c.manager
      then (ok tt, c)
      else let (reply, db) = r.connect now c.db in
        elim reply [
          | ok _ ↦ (ok tt, record { db = db; manager = true })
          | err e ↦ (err bad_connection, record { db = db; manager = false })
        ]

  -- The frame of an operation: get the connection, run the commands, classify their error.
  unfoldable pub run : {A : Type 0} → Command r.Db A → Op RedisClient A
  unfolding connection classify
  run commands now c =
      let (connected, c') = connection now c in
      elim connected [
        | err e ↦ (err e, c')
        | ok _ ↦
            let (reply, db) = commands now c'.db in (map_err classify reply, record c' { db = db })
      ]

  -- Commands one after another, up to the first that fails.
  abbrev pub then_do : {A B : Type 0} → Command r.Db A → (A → Command r.Db B) → Command r.Db B
  then_do m f now db =
      let (reply, db') = m now db in elim reply [ ok a ↦ f a now db' | err e ↦ (err e, db') ]

  abbrev pub reply : {A : Type 0} → A → Command r.Db A
  reply a now db = (ok a, db)

  unfoldable pub ping : Op RedisClient (Unit {0})
  unfolding run
  ping = run r.ping

  unfoldable pub store_jti : Text → ℕ → Op RedisClient (Unit {0})
  unfolding run
  store_jti jti ttl = run (r.set_ex jti (codes "1") ttl)

  unfoldable pub check_jti : Text → Op RedisClient Bool
  unfolding run
  check_jti jti = run (r.exists jti)

  unfoldable pub delete_jti : Text → Op RedisClient (Unit {0})
  unfolding run
  delete_jti jti = run (r.del (jti ∷ []))

  abbrev pub add_commands : Text → Text → ℕ → Command r.Db (Unit {0})
  add_commands group jti expires_at =
      then_do (r.zadd group jti expires_at) (λ _. r.expire_at group expires_at)

  unfoldable pub add_to_group : Text → Text → ℕ → Op RedisClient (Unit {0})
  unfolding run
  add_to_group group jti expires_at = run (add_commands group jti expires_at)

  -- DEL of no keys would be an error.
  abbrev pub del_members : List Text → Command r.Db (Unit {0})
  del_members [] = reply tt
  del_members (j ∷ jtis) = r.del (j ∷ jtis)

  -- `now` is read before the commands run.
  abbrev pub revoke_commands : Text → Command r.Db ℕ
  revoke_commands group now =
      then_do (r.zrembyscore group now)
        (λ _. then_do (r.zrange group) (λ jtis.
          then_do (del_members jtis)
            (λ _. then_do (r.del (group ∷ [])) (λ _. reply (length jtis)))))
        now

  unfoldable pub revoke_group : Text → Op RedisClient ℕ
  unfolding run
  revoke_group group = run (revoke_commands group)

  abbrev pub store_commands : Text → Text → RefreshRecord → ℕ → Command r.Db (Unit {0})
  store_commands key audience rec ttl =
      then_do
        (r.hset_multiple key (
          (codes "sub", rec.subject) ∷ (codes "aud", audience) ∷ (codes "family", rec.family) ∷ []))
        (λ _. r.expire key ttl)

  unfoldable pub store_refresh : Text → RefreshRecord → ℕ → Op RedisClient (Unit {0})
  unfolding run connection
  store_refresh id rec ttl now c = elim (json.print rec.audience) [
    | some audience ↦ run (store_commands (refresh_key id) audience rec ttl) now c
    | none ↦
        let (connected, c') = connection now c in
        (and_then connected (λ _. err wrong_operation), c')
  ]

  -- A record with a missing field, or whose audience does not parse, counts as absent.
  abbrev pub record_of : Option Text → Option Text → Option Text → Option RefreshRecord
  record_of (some subject) (some audience) (some family) = elim (json.parse audience) [
    | some a ↦ some (record { subject = subject; audience = a; family = family })
    | none ↦ none
  ]
  record_of _ _ _ = none

  unfoldable pub read_record : List (Text × Text) → Option RefreshRecord
  unfolding hash_get
  read_record fields =
      if is_empty fields
      then none
      else record_of (hash_get (codes "sub") fields) (hash_get (codes "aud") fields)
          (hash_get (codes "family") fields)

  unfoldable pub get_refresh : Text → Op RedisClient (Option RefreshRecord)
  unfolding run read_record
  get_refresh id now c =
      let (fields, c') = run (r.hgetall (refresh_key id)) now c in
      (and_then fields (λ h. ok (read_record h)), c')

  unfoldable pub mark_refresh_used : Text → Op RedisClient Bool
  unfolding run
  mark_refresh_used id = run (r.hset_nx (refresh_key id) (codes "used") (codes "1"))

  unfoldable pub claim_totp_code : Text → ℕ → Op RedisClient Bool
  unfolding run
  claim_totp_code hash ttl now c =
      let (created, c') = run (r.set_nx_ex (totp_code_key hash) (codes "1") ttl) now c in
      (and_then created (λ o. ok (is_some o)), c')

  abbrev pub redis_store : JtiStore
  redis_store = record {
    State = RedisClient;
    ping = ping;
    store_jti = store_jti;
    check_jti = check_jti;
    delete_jti = delete_jti;
    add_to_group = add_to_group;
    revoke_group = revoke_group;
    store_refresh = store_refresh;
    get_refresh = get_refresh;
    mark_refresh_used = mark_refresh_used;
    claim_totp_code = claim_totp_code;
  }
