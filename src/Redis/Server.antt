-- ===== src/Redis/Server.antt =====
-- What redis.rs relies on in Redis: the commands that it sends. The server is a parameter: `RedisServer`
-- holds its commands and, for each, the law that a command that replies without an error had its
-- documented effect and reply. The ideal server meets the laws.
use jwt_service_app.Base.{
  ℕ, ◌^◌, ◌<◌, Bool, false, Option, none, some, List, Result, ok, err, ◌≡◌, refl,
}
use jwt_service_app.Base.Text.{Text}
use jwt_service_app.Redis.Keyspace
use jwt_service_app.Redis.Keyspace.{Keyspace, Effect}

-- `redis::RedisError`, as far as redis.rs asks it.
pub record RedisError : Type 0 where
  pub is_timeout : Bool
  pub is_connection_dropped : Bool
  pub is_connection_refusal : Bool

-- A command at a moment: it may fail at any time.
abbrev pub Command : Type 0 → Type 0 → Type 0
Command Db A = ℕ → Db → Result RedisError A × Db

-- A reply that is no error comes with the documented effect; nothing is known of a failed command,
-- which may have run or not.
abbrev pub Follows :
    {Db A : Type 0} → (Db → Keyspace) → Command Db A → (ℕ → Keyspace → Effect A) → Type 0
Follows {Db} {A} view c effect =
    (now : ℕ) (db : Db) (a : A)
    → (c now db).0 ≡ ok a
    → effect now (view db) ≡ some (a, view (c now db).1)

-- Redis keeps a score as a double: an integer below this one is kept exactly. The laws on scores and
-- moments are stated below it.
abbrev pub exact : ℕ
exact = 2 ^ 53

pub record RedisServer : Type 1 where
  pub Db : Type 0
  pub view : Db → Keyspace
  -- `ConnectionManager::new_with_config`
  pub connect : Command Db (Unit {0})
  pub ping : Command Db (Unit {0})
  pub set_ex : Text → Text → ℕ → Command Db (Unit {0})
  pub exists : Text → Command Db Bool
  pub del : List Text → Command Db (Unit {0})
  pub set_nx_ex : Text → Text → ℕ → Command Db (Option Text)
  pub expire_at : Text → ℕ → Command Db (Unit {0})
  pub expire : Text → ℕ → Command Db (Unit {0})
  pub zadd : Text → Text → ℕ → Command Db (Unit {0})
  pub zrembyscore : Text → ℕ → Command Db (Unit {0})
  pub zrange : Text → Command Db (List Text)
  pub hset_multiple : Text → List (Text × Text) → Command Db (Unit {0})
  pub hgetall : Text → Command Db (List (Text × Text))
  pub hset_nx : Text → Text → Text → Command Db Bool
  -- connecting leaves the key space alone
  pub connect_law : (now : ℕ) (db : Db) → view (connect now db).1 ≡ view db
  pub set_ex_law : (k v : Text) (ttl : ℕ) → Follows view (set_ex k v ttl) (Keyspace.set_ex k v ttl)
  pub exists_law : (k : Text) → Follows view (exists k) (Keyspace.exists k)
  pub del_law : (keys : List Text) → Follows view (del keys) (Keyspace.del keys)
  pub set_nx_ex_law :
      (k v : Text) (ttl : ℕ) → Follows view (set_nx_ex k v ttl) (Keyspace.set_nx_ex k v ttl)
  pub expire_at_law :
      (k : Text) (d : ℕ) → d < exact → Follows view (expire_at k d) (Keyspace.expire_at k d)
  pub expire_law :
      (k : Text) (ttl : ℕ) → ttl < exact → Follows view (expire k ttl) (Keyspace.expire k ttl)
  pub zadd_law : (k m : Text) (s : ℕ) → s < exact → Follows view (zadd k m s) (Keyspace.zadd k m s)
  pub zrembyscore_law :
      (k : Text) (bound : ℕ)
      → bound < exact
      → Follows view (zrembyscore k bound) (Keyspace.zrembyscore k bound)
  pub zrange_law : (k : Text) → Follows view (zrange k) (Keyspace.zrange k)
  pub hset_multiple_law :
      (k : Text) (fs : List (Text × Text))
      → Follows view (hset_multiple k fs) (Keyspace.hset_multiple k fs)
  pub hgetall_law : (k : Text) → Follows view (hgetall k) (Keyspace.hgetall k)
  pub hset_nx_law : (k f v : Text) → Follows view (hset_nx k f v) (Keyspace.hset_nx k f v)

-- The server that never loses a connection and does what is documented.
abbrev pub refused : RedisError
refused = record {
  is_timeout = false;
  is_connection_dropped = false;
  is_connection_refusal = false;
}

abbrev pub answer : {A : Type 0} → Keyspace → Effect A → Result RedisError A × Keyspace
answer ks none = (err refused, ks)
answer ks (some (a, ks')) = (ok a, ks')

abbrev pub ideally : {A : Type 0} → (ℕ → Keyspace → Effect A) → Command Keyspace A
ideally effect now ks = answer ks (effect now ks)

pub answer-Follows :
    {A : Type 0} (ks : Keyspace) (e : Effect A) (a : A)
    → (answer ks e).0 ≡ ok a
    → e ≡ some (a, (answer ks e).1)
answer-Follows ks none a h = cc
answer-Follows ks (some (b, ks')) a h = cc

abbrev pub ideal : RedisServer
ideal = record {
  Db = Keyspace;
  view = λ ks. ks;
  connect = λ now ks. (ok tt, ks);
  ping = λ now ks. (ok tt, ks);
  set_ex = λ k v ttl. ideally (Keyspace.set_ex k v ttl);
  exists = λ k. ideally (Keyspace.exists k);
  del = λ keys. ideally (Keyspace.del keys);
  set_nx_ex = λ k v ttl. ideally (Keyspace.set_nx_ex k v ttl);
  expire_at = λ k d. ideally (Keyspace.expire_at k d);
  expire = λ k ttl. ideally (Keyspace.expire k ttl);
  zadd = λ k m s. ideally (Keyspace.zadd k m s);
  zrembyscore = λ k b. ideally (Keyspace.zrembyscore k b);
  zrange = λ k. ideally (Keyspace.zrange k);
  hset_multiple = λ k fs. ideally (Keyspace.hset_multiple k fs);
  hgetall = λ k. ideally (Keyspace.hgetall k);
  hset_nx = λ k f v. ideally (Keyspace.hset_nx k f v);
  connect_law = λ now ks. refl;
  set_ex_law = λ k v ttl now ks. answer-Follows ks _;
  exists_law = λ k now ks. answer-Follows ks _;
  del_law = λ keys now ks. answer-Follows ks _;
  set_nx_ex_law = λ k v ttl now ks. answer-Follows ks _;
  expire_at_law = λ k d h now ks. answer-Follows ks _;
  expire_law = λ k ttl h now ks. answer-Follows ks _;
  zadd_law = λ k m s h now ks. answer-Follows ks _;
  zrembyscore_law = λ k b h now ks. answer-Follows ks _;
  zrange_law = λ k now ks. answer-Follows ks _;
  hset_multiple_law = λ k fs now ks. answer-Follows ks _;
  hgetall_law = λ k now ks. answer-Follows ks _;
  hset_nx_law = λ k f v now ks. answer-Follows ks _;
}
