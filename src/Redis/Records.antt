-- ===== src/Redis/Records.antt =====
-- The effects of HSETNX, HSET with EXPIRE, and SET NX EX on the entry of one key.
use jwt_service_app.Base.{
  ℕ, ◌+◌, ◌≡◌, refl, sym, ◌∙◌, Bool, true, false, not, Bool-cases, Option, none, some, Option-cases,
  List, [], ◌∷◌, ltb, ◌==◌, arith, inl, inr, is_empty, if◌then◌else◌,
}
use jwt_service_app.Base.Text.{Text, codes, text_eq, text_eq_iff, text_eq_refl}
use jwt_service_app.Redis.Keyspace.{
  Keyspace, Entry, hash, live, is_live, put, before, Effect, set_nx_ex, hash_of, hash_get, hash_set,
  hash_set_all, hset_multiple, hset_nx, hset_nx_from, hgetall, expire,
}
use jwt_service_app.Redis.{is_some}
use jwt_service_app.Redis.Refines.{give, then_effect, refresh_effect}
use jwt_service_app.Redis.Groups.{effect_parts, then_effect-some}

-- SET NX creates the key exactly if it is not live, and then keeps it for its lifetime.
pub set_nx_ex-live :
    (k v : Text) (ttl now later : ℕ) (ks ks' : Keyspace) (o : Option Text)
    → set_nx_ex k v ttl now ks ≡ some (o, ks')
    → (is_some o ≡ not (is_live (live now ks k)))
      × (is_some o ≡ true → is_live (live later ks' k) ≡ ltb later (now + ttl))
unfolding set_nx_ex
set_nx_ex-live k v ttl now later ks ks' o e = elim (Bool-cases (ttl == 0)) [
  | inl zero ↦ absurd (cc (rw (zero, set_nx_ex) at e))
  | inr positive ↦ elim (Bool-cases (is_live (live now ks k))) [
    | inl old ↦
        let (which, _) = effect_parts {a = none} {ks' = ks'} (rw (positive, old, set_nx_ex) at e) in
        (rw (old, ← which), λ new. absurd (cc (rw (← which) at new)))
    | inr fresh ↦
        let (which, same) =
          effect_parts {a = some (codes "OK")} {ks' = ks'} (rw (positive, fresh, set_nx_ex) at e) in
        (rw (fresh, ← which), λ _. ground (arith, same k, text_eq_refl k))
  ]
]

-- A reply that was mapped.
pub mapped :
    {A B : Type 0} (e : ℕ → Keyspace → Effect A) (f : A → B) (now : ℕ) (ks ks' : Keyspace) (b : B)
    → then_effect e (λ a. give (f a)) now ks ≡ some (b, ks')
    → (a : A) × (e now ks ≡ some (a, ks')) × (f a ≡ b)
mapped {A} e f now ks ks' b h = go (e now ks) refl
  where
    go : (o : Effect A) → e now ks ≡ o → (a : A) × (e now ks ≡ some (a, ks')) × (f a ≡ b)
    go none found = absurd (cc (rw (found, then_effect) at h))
    go (some (a, ks1)) found = (
      a,
      cc (then_effect-some e (λ x. give (f x)) now ks found),
      cc (then_effect-some e (λ x. give (f x)) now ks found),
    )

pub hash_get-hash_set :
    (f g v : Text) (h : List (Text × Text))
    → hash_get g (hash_set f v h) ≡ (if text_eq f g then some v else hash_get g h)
unfolding hash_get hash_set
hash_get-hash_set f g v [] = ground (arith, text_eq_iff f g, text_eq_iff g f)
hash_get-hash_set f g v ((j, w) ∷ h) = ground (
  arith,
  hash_get-hash_set f g v h,
  text_eq_iff f j,
  text_eq_iff f g,
  text_eq_iff g f,
  text_eq_iff g j,
)

raw_of_live :
    (now : ℕ) (ks : Keyspace) (k : Text) (x : Entry) → live now ks k ≡ some x → ks k ≡ some x
raw_of_live now ks k x h = elim (Option-cases (ks k)) [
  | inl absent ↦ ground arith
  | inr (y, here) ↦ ground arith
]

-- HSETNX on a live hash: the field is there afterwards, the others and the deadline are kept.
pub hset_nx_lem :
    (k f v : Text) (now : ℕ) (ks ks' : Keyspace) (h : List (Text × Text)) (d : Option ℕ) (b : Bool)
    → live now ks k ≡ some (record { value = hash h; deadline = d })
    → hset_nx k f v now ks ≡ some (b, ks')
    → (b ≡ not (is_some (hash_get f h)))
      × (h' : List (Text × Text)) × (ks' k ≡ some (record { value = hash h'; deadline = d }))
      × (is_some (hash_get f h') ≡ true)
      × ((g : Text) → text_eq f g ≡ false → hash_get g h' ≡ hash_get g h)
unfolding hset_nx
hset_nx_lem k f v now ks ks' h d b here e = elim (Option-cases (hash_get f h)) [
  | inr (w, old) ↦
      let (which, same) =
        effect_parts {a = false} {ks' = ks'}
          (rw (old, hset_nx_from) at (rw (here, hset_nx) at e)) in
      (rw (old, ← which), h, sym (same k) ∙ raw_of_live now ks k _ here, rw old, λ g ne. refl)
  | inl fresh ↦
      let (which, same) =
        effect_parts {a = true} {ks' = ks'}
          (rw (fresh, hset_nx_from) at (rw (here, hset_nx) at e)) in
      (
        rw (fresh, ← which),
        hash_set f v h,
        sym (same k) ∙ rw (text_eq_refl k),
        rw (hash_get-hash_set f f v h, text_eq_refl f),
        λ g ne. rw (hash_get-hash_set f g v h, ne),
      )
]

hash_of-before :
    (now : ℕ) (ks : Keyspace) (k : Text) (h : List (Text × Text)) (d : Option ℕ)
    → hash_of (live now ks k) ≡ some (h, d)
    → before now d ≡ true
hash_of-before now ks k h d e = elim (Option-cases (ks k)) [
  | inl absent ↦ ground arith
  | inr (y, here) ↦ ground arith
]

expire-put :
    (key : Text) (ttl now : ℕ) (h : List (Text × Text)) (d : Option ℕ) (ks ks' : Keyspace)
    → before now d ≡ true
    → expire key ttl now (put key (some (record { value = hash h; deadline = d })) ks)
      ≡ some (tt, ks')
    → ks' key ≡ some (record { value = hash h; deadline = some (now + ttl) })
unfolding expire
expire-put key ttl now h d ks ks' fresh e =
    let (_, same) = effect_parts {a = tt} {ks' = ks'} e in
    ground (arith, same key, text_eq_refl key)

-- HSET with EXPIRE: the hash holds the fields over what it held before, for the lifetime.
pub refresh_effect-entry :
    (key : Text) (fields : List (Text × Text)) (ttl now : ℕ) (ks ks' : Keyspace)
    → refresh_effect key fields ttl now ks ≡ some (tt, ks')
    → (h : List (Text × Text)) × (ks' key
        ≡ some (record { value = hash (hash_set_all fields h); deadline = some (now + ttl) }))
unfolding hset_multiple
refresh_effect-entry key fields ttl now ks ks' e = go (hash_of (live now ks key)) refl
  where
    go :
        (o : Option (List (Text × Text) × Option ℕ))
        → hash_of (live now ks key) ≡ o
        → (h : List (Text × Text)) × (ks' key
            ≡ some (record { value = hash (hash_set_all fields h); deadline = some (now + ttl) }))
    go none found = absurd (cc (rw (found, hset_multiple, then_effect) at e))
    go (some (h, d)) found = (
      h,
      expire-put key ttl now (hash_set_all fields h) d ks ks' (hash_of-before now ks key h d found)
          (sym (
              then_effect-some (hset_multiple key fields) (λ _. expire key ttl) now ks
                (rw (found, hset_multiple)))
            ∙ e),
    )

pub hgetall_at :
    (key : Text) (later d : ℕ) (h h' : List (Text × Text)) (ks ks' : Keyspace)
    → ks key ≡ some (record { value = hash h; deadline = some d })
    → hgetall key later ks ≡ some (h', ks')
    → h' ≡ (if ltb later d then h else [])
unfolding hgetall
hgetall_at key later d h h' ks ks' here e = ground arith

pub hash_set-nonempty : (f v : Text) (h : List (Text × Text)) → is_empty (hash_set f v h) ≡ false
unfolding hash_set
hash_set-nonempty f v [] = refl
hash_set-nonempty f v ((g, w) ∷ h) = ground arith
