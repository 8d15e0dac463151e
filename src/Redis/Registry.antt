-- ===== src/Redis/Registry.antt =====
-- The contract of `RedisClient` for what is written once and then expires: token identifiers and TOTP
-- codes. The abstract registry says of each key when it is active; the operations on Redis implement it.
use jwt_service_app.Base.{
  ℕ, ◌+◌, ◌≡◌, refl, sym, ◌∙◌, Bool, true, false, not, Bool-cases, inl, inr, Option, none, some,
  List, [], ◌∷◌, ltb, ◌==◌, Result, Result-cases, ok, err, and_then, subst, and_then-ok,
  ok-injective, arith, if◌then◌else◌,
}
use jwt_service_app.Base.Text.{Text, codes, text_eq}
use jwt_service_app.Store.{JtiError, Op, totp_code_key}
use jwt_service_app.Redis.Keyspace.{Keyspace, is_live, live, exists, del, set_ex, set_nx_ex}
use jwt_service_app.Redis.Server.{RedisServer}
use jwt_service_app.Redis.{
  AudienceJson, RedisClient, is_some, store_jti, check_jti, delete_jti, claim_totp_code,
}
use jwt_service_app.Redis.Refines.{
  keys, check_jti-Refines, store_jti-Refines, delete_jti-Refines, claim_totp_code-Refines,
}
use jwt_service_app.Redis.Groups.{effect_parts}
use jwt_service_app.Redis.Records.{mapped}

-- Whether a key is active at a moment.
abbrev pub Registry : Type 0
Registry = Text → ℕ → Bool

abbrev pub set_key : Text → (ℕ → Bool) → Registry → Registry
set_key k active reg j = if text_eq k j then active else reg j

pub data Request : Type 0 where
  store : Text → ℕ → Request
  check : Text → Request
  delete : Text → Request
  claim : Text → ℕ → Request

-- The answer to a request at a moment, and the registry after it: a stored key is active for its
-- lifetime, a deleted one never, and a claim is won by who finds the key inactive.
unfoldable pub registry_step : Request → ℕ → Registry → Bool × Registry
registry_step (store jti ttl) now reg = (true, set_key jti (λ t. ltb t (now + ttl)) reg)
registry_step (check jti) now reg = (reg jti now, reg)
registry_step (delete jti) now reg = (true, set_key jti (λ t. false) reg)
registry_step (claim code ttl) now reg =
    let key = totp_code_key code in
    (not (reg key now), if reg key now then reg else set_key key (λ t. ltb t (now + ttl)) reg)

-- A sequence of requests, each at its moment, and the answers.
unfoldable pub registry_run : List (ℕ × Request) → Registry → List Bool × Registry
unfolding registry_step
registry_run [] reg = ([], reg)
registry_run ((now, q) ∷ qs) reg =
    let (b, reg') = registry_step q now reg in
    let (answers, reg'') = registry_run qs reg' in (b ∷ answers, reg'')

-- The keys that are live are the active ones, at every moment.
abbrev pub Represents : Keyspace → Registry → Type 0
Represents ks reg = (k : Text) (t : ℕ) → is_live (live t ks k) ≡ reg k t

set_ex-Represents :
    (k v : Text) (ttl now : ℕ) (ks ks' : Keyspace) (reg : Registry)
    → set_ex k v ttl now ks ≡ some (tt, ks')
    → Represents ks reg
    → Represents ks' (set_key k (λ t. ltb t (now + ttl)) reg)
unfolding set_ex
set_ex-Represents k v ttl now ks ks' reg e rep j t = elim (Bool-cases (ttl == 0)) [
  | inl zero' ↦ absurd (cc (rw (zero', set_ex) at e))
  | inr positive ↦
      let (_, same) = effect_parts {a = tt} {ks' = ks'} (rw (positive, set_ex) at e) in
      ground (arith, same j, rep j t)
]

del-Represents :
    (k : Text) (now : ℕ) (ks ks' : Keyspace) (reg : Registry)
    → del (k ∷ []) now ks ≡ some (tt, ks')
    → Represents ks reg
    → Represents ks' (set_key k (λ t. false) reg)
unfolding del
del-Represents k now ks ks' reg e rep j t =
    let (_, same) = effect_parts {a = tt} {ks' = ks'} e in ground (arith, same j, rep j t)

set_nx_ex-Represents :
    (k v : Text) (ttl now : ℕ) (ks ks' : Keyspace) (reg : Registry) (o : Option Text)
    → set_nx_ex k v ttl now ks ≡ some (o, ks')
    → Represents ks reg
    → (is_some o ≡ not (reg k now))
      × Represents ks' (if reg k now then reg else set_key k (λ t. ltb t (now + ttl)) reg)
unfolding set_nx_ex
set_nx_ex-Represents k v ttl now ks ks' reg o e rep = elim (Bool-cases (ttl == 0)) [
  | inl zero' ↦ absurd (cc (rw (zero', set_nx_ex) at e))
  | inr positive ↦ elim (Bool-cases (is_live (live now ks k))) [
    | inl old ↦
        let (which, same) =
          effect_parts {a = none} {ks' = ks'} (rw (positive, old, set_nx_ex) at e) in
        let taken : reg k now ≡ true = sym (rep k now) ∙ old in
        (rw (taken, ← which) refl, λ j t. rw taken (ground (arith, same j, rep j t)))
    | inr fresh ↦
        let (which, same) =
          effect_parts {a = some (codes "OK")} {ks' = ks'} (rw (positive, fresh, set_nx_ex) at e) in
        let free : reg k now ≡ false = sym (rep k now) ∙ fresh in
        (rw (free, ← which) refl, λ j t. rw free (ground (arith, same j, rep j t)))
  ]
]

module _ (r : RedisServer) (json : AudienceJson) where
  abbrev done_true : Result JtiError (Unit {0}) → Result JtiError Bool
  done_true (ok _) = ok true
  done_true (err e) = err e

  -- The request as an operation of the client; one that has no result is answered with true.
  abbrev pub perform : Request → Op (RedisClient r json) Bool
  perform (store jti ttl) now c =
      let (answer, c') = store_jti r json jti ttl now c in (done_true answer, c')
  perform (check jti) now c = check_jti r json jti now c
  perform (delete jti) now c =
      let (answer, c') = delete_jti r json jti now c in (done_true answer, c')
  perform (claim code ttl) now c = claim_totp_code r json code ttl now c

  -- The requests one after another, up to the first that is not answered.
  abbrev pub perform_all :
      List (ℕ × Request) → RedisClient r json → Result JtiError (List Bool) × RedisClient r json
  perform_all [] c = (ok [], c)
  perform_all ((now, q) ∷ qs) c =
      let (answer, c') = perform q now c in
      let (answers, c'') = perform_all qs c' in
      elim answer [ err e ↦ (err e, c') | ok b ↦ (and_then answers (λ bs. ok (b ∷ bs)), c'') ]

  done_true-ok :
      (o : Result JtiError (Unit {0})) (b : Bool) → done_true o ≡ ok b → (o ≡ ok tt) × (b ≡ true)
  done_true-ok (ok u) b h = (refl, cc h)
  done_true-ok (err e) b h = absurd (cc h)

  -- One answered request does what the registry says.
  perform-Represents :
      (q : Request) (now : ℕ) (c : RedisClient r json) (reg : Registry) (b : Bool)
      → Represents (keys r json c) reg
      → (perform q now c).0 ≡ ok b
      → (b ≡ (registry_step q now reg).0)
        × Represents (keys r json (perform q now c).1) (registry_step q now reg).1
  unfolding registry_step exists
  perform-Represents (store jti ttl) now c reg b rep h =
      let (answered, is_true) = done_true-ok _ b h in
      (
        is_true,
        set_ex-Represents jti (codes "1") ttl now _ _ reg
            (store_jti-Refines r json jti ttl now c tt answered) rep,
      )
  perform-Represents (delete jti) now c reg b rep h =
      let (answered, is_true) = done_true-ok _ b h in
      (
        is_true,
        del-Represents jti now _ _ reg (delete_jti-Refines r json jti now c tt answered) rep,
      )
  perform-Represents (check jti) now c reg b rep h =
      let (which, same) =
        effect_parts {a = is_live (live now (keys r json c) jti)}
          {ks' = keys r json (check_jti r json jti now c).1}
          (check_jti-Refines r json jti now c b h) in
      (sym which ∙ rep jti now, λ j t. ground (arith, same j, rep j t))
  perform-Represents (claim code ttl) now c reg b rep h =
      let (o, done, won) =
        mapped (set_nx_ex (totp_code_key code) (codes "1") ttl) is_some now (keys r json c) _ b
          (claim_totp_code-Refines r json code ttl now c b h) in
      let (which, rep') =
        set_nx_ex-Represents (totp_code_key code) (codes "1") ttl now _ _ reg o done rep in
      (sym won ∙ which, rep')

  answered_first :
      (now : ℕ) (q : Request) (qs : List (ℕ × Request)) (c : RedisClient r json)
      (answers : List Bool)
      → (perform_all ((now, q) ∷ qs) c).0 ≡ ok answers
      → (b : Bool) × (bs : List Bool) × ((perform q now c).0 ≡ ok b)
        × ((perform_all qs (perform q now c).1).0 ≡ ok bs)
        × (b ∷ bs ≡ answers)
        × ((perform_all ((now, q) ∷ qs) c).1 ≡ (perform_all qs (perform q now c).1).1)
  answered_first now q qs c answers h = elim (Result-cases (perform q now c).0) [
    | inr (e, failed) ↦ absurd (cc (rw (failed, perform_all) at h))
    | inl (b, answered) ↦
        let (bs, rest, all_of_them) =
          and_then-ok (perform_all qs (perform q now c).1).0 (λ bs. ok (b ∷ bs))
            (rw (answered, perform_all) at h) in
        (b, bs, answered, rest, ok-injective all_of_them, rw (answered, perform_all) refl)
  ]

  -- `RedisClient` implements the registry: of any sequence of requests that the store answers, whatever
  -- the Redis server is, the answers are those of the registry, and the keys that are live afterwards,
  -- at every moment, are the ones that are active in it. So an identifier is active from when it is
  -- stored until its lifetime is over or it is deleted, and of the claims of one code within a
  -- lifetime one wins.
  pub perform_all-Represents :
      (qs : List (ℕ × Request)) (c : RedisClient r json) (reg : Registry) (answers : List Bool)
      → Represents (keys r json c) reg
      → (perform_all qs c).0 ≡ ok answers
      → (answers ≡ (registry_run qs reg).0)
        × Represents (keys r json (perform_all qs c).1) (registry_run qs reg).1
  unfolding registry_run
  perform_all-Represents [] c reg answers rep h = (sym (ok-injective h), rep)
  perform_all-Represents ((now, q) ∷ qs) c reg answers rep h =
      let (b, bs, answered, rest, together, left) = answered_first now q qs c answers h in
      let (same, rep') = perform-Represents q now c reg b rep answered in
      let (same', rep'') =
        perform_all-Represents qs (perform q now c).1 (registry_step q now reg).1 bs rep' rest in
      (
        sym together ∙ cc (same, same'),
        subst (λ c'. Represents (keys r json c') (registry_run ((now, q) ∷ qs) reg).1) (sym left)
            rep'',
      )
