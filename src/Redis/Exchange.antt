-- ===== src/Redis/Exchange.antt =====
-- The marks of one refresh record among everything else that happens in the store, as a step relation:
-- of all exchanges that reach the mark, one goes on. And what a mark does after its family is revoked.
use jwt_service_app.Base.{
  ℕ, ◌+◌, ◌≤◌, ◌<◌, ◌≡◌, refl, sym, ◌∙◌, Bool, true, false, not, Option, none, some, List, [], ◌∷◌,
  ok, arith, if◌then◌else◌,
}
use jwt_service_app.Base.Text.{Text, codes, text_eq_refl}
use jwt_service_app.Store.{refresh_key}
use jwt_service_app.Redis.Keyspace.{hash, before, hash_get, hset_nx}
use jwt_service_app.Redis.Server.{RedisServer, exact}
use jwt_service_app.Redis.{AudienceJson, RedisClient, is_some, mark_refresh_used, revoke_group}
use jwt_service_app.Redis.Revocation.{revoke_group_deletes}
use jwt_service_app.Redis.Refines.{keys, mark_refresh_used-Refines}
use jwt_service_app.Redis.Groups.{effect_parts, group_score}
use jwt_service_app.Redis.Records.{hset_nx_lem}

module _ (r : RedisServer) (json : AudienceJson) where
  abbrev pub won : Bool → ℕ
  won b = if b then 1 else 0

  -- The states that the store goes through while a record lives, with the number of marks won so far:
  -- an answered mark of the record before its deadline, or anything that leaves the record alone.
  pub data Marks (id : Text) (d : Option ℕ)
      : RedisClient r json → ℕ → RedisClient r json → Type 0 where
    start : (c : RedisClient r json) → Marks id d c 0 c
    mark :
        {c c1 : RedisClient r json} {n : ℕ} (now : ℕ) (b : Bool)
        → Marks id d c n c1
        → before now d ≡ true
        → (mark_refresh_used r json id now c1).0 ≡ ok b
        → Marks id d c (n + won b) (mark_refresh_used r json id now c1).1
    elsewhere :
        {c c1 c2 : RedisClient r json} {n : ℕ}
        → Marks id d c n c1
        → keys r json c2 (refresh_key id) ≡ keys r json c1 (refresh_key id)
        → Marks id d c n c2

  -- The record is there, and marked once a mark was won.
  record IsMarked (id : Text) (d : Option ℕ) (n : ℕ) (c : RedisClient r json) : Type 0 where
    pub fields : List (Text × Text)
    pub entry : keys r json c (refresh_key id) ≡ some (record { value = hash fields; deadline = d })
    pub at_most_one : n ≤ 1
    pub used : is_some (hash_get (codes "used") fields) ≡ false → n ≡ 0

  count : (m : ℕ) (b taken : Bool) → b ≡ not taken → m ≤ 1 → (taken ≡ false → m ≡ 0) → m + won b ≤ 1
  count m b true lost few none_yet = ground (arith, lost, few)
  count m b false first few none_yet = ground (arith, first, none_yet refl)

  Marks-IsMarked :
      (id : Text) (d : Option ℕ) (c c' : RedisClient r json) (n : ℕ) (h : List (Text × Text))
      → keys r json c (refresh_key id) ≡ some (record { value = hash h; deadline = d })
      → Marks id d c n c'
      → IsMarked id d n c'
  Marks-IsMarked id d c c' n h here (start _) = record {
    fields = h;
    entry = here;
    at_most_one = omega arith;
    used = λ _. refl;
  }
  Marks-IsMarked id d c c' n h here (mark {c1} {n = m} now b before' fresh answered) =
      let was = Marks-IsMarked id d c c1 m h here before' in
      let (answer, h', entry', marked, _) =
        hset_nx_lem (refresh_key id) (codes "used") (codes "1") now (keys r json c1) _ was.fields d
          b (rw was.entry (rw fresh refl))
          (mark_refresh_used-Refines r json id now c1 b answered) in
      record {
        fields = h';
        entry = entry';
        at_most_one = count m b _ answer was.at_most_one was.used;
        used = λ unmarked. absurd (cc (marked, unmarked));
      }
  Marks-IsMarked id d c c' n h here (elsewhere {c1} before' same) =
      let was = Marks-IsMarked id d c c1 n h here before' in
      record {
        fields = was.fields;
        entry = same ∙ was.entry;
        at_most_one = was.at_most_one;
        used = was.used;
      }

  -- However the exchanges of one refresh token interleave, with each other and with everything else
  -- that leaves its record alone, at most one of their marks is won while the record lives.
  pub Marks-one_winner :
      (id : Text) (d : Option ℕ) (c c' : RedisClient r json) (n : ℕ) (h : List (Text × Text))
      → keys r json c (refresh_key id) ≡ some (record { value = hash h; deadline = d })
      → Marks id d c n c'
      → n ≤ 1
  Marks-one_winner id d c c' n h here steps =
      let marked = Marks-IsMarked id d c c' n h here steps in marked.at_most_one

  mark_absent :
      (id : Text) (now : ℕ) (c : RedisClient r json) (b : Bool)
      → keys r json c (refresh_key id) ≡ none
      → (mark_refresh_used r json id now c).0 ≡ ok b
      → (b ≡ true)
        × (keys r json (mark_refresh_used r json id now c).1 (refresh_key id)
            ≡ some (record { value = hash ((codes "used", codes "1") ∷ []); deadline = none }))
  unfolding hset_nx
  mark_absent id now c b gone answered =
      let key = refresh_key id in
      let (which, same) =
        effect_parts {a = true} {ks' = keys r json (mark_refresh_used r json id now c).1}
          (rw (gone, hset_nx) at (mark_refresh_used-Refines r json id now c b answered)) in
      (sym which, sym (same key) ∙ rw (text_eq_refl key) refl)

  -- Once the family of a refresh token is revoked, a mark of its record is won again, though it was
  -- marked before: HSETNX creates the record anew, with no deadline. So an exchange that read the
  -- record before the revocation goes on in the revoked family.
  pub mark_refresh_used-revoke_group :
      (group id : Text) (now later n s : ℕ) (c : RedisClient r json) (b : Bool)
      → now < exact
      → group_score now (keys r json c) group (refresh_key id) ≡ some s
      → now < s
      → (revoke_group r json group now c).0 ≡ ok n
      → (mark_refresh_used r json id later (revoke_group r json group now c).1).0 ≡ ok b
      → (b ≡ true)
        × (keys r json
              (mark_refresh_used r json id later (revoke_group r json group now c).1).1
              (refresh_key id)
            ≡ some (record { value = hash ((codes "used", codes "1") ∷ []); deadline = none }))
  mark_refresh_used-revoke_group group id now later n s c b small listed h revoked answered =
      mark_absent id later (revoke_group r json group now c).1 b
        (revoke_group_deletes r json group (refresh_key id) now n s c small listed h revoked)
        answered
