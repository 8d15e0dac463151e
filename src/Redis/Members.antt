-- ===== src/Redis/Members.antt =====
-- The effects of `add_to_group` and `revoke_group` on the entry of a group.
use jwt_service_app.Base.{
  ℕ, ◌≡◌, ◌⊎◌, refl, sym, ◌∙◌, true, false, Option, none, some, Option-cases, List, [], ◌∷◌, map,
  arith, inl, inr, if◌then◌else◌,
}
use jwt_service_app.Base.Text.{Text, text_eq, text_eq_refl, contains}
use jwt_service_app.Redis.Keyspace.{
  Keyspace, Entry, Value, zadd_entry, zrembyscore, string, hash, zset, live, put, zadd, zinsert,
  expire_at, above, before,
}
use jwt_service_app.Redis.Refines.{add_effect, revoke_effect, then_effect}
use jwt_service_app.Redis.Groups.{score, score_in, score-zinsert, effect_parts, then_effect-some}

-- A member with a score is a member of a sorted set.
pub zset_of_score :
    (o : Option Entry) (m : Text) (s : ℕ)
    → score_in o m ≡ some s
    → (l : List (Text × ℕ)) × (d : Option ℕ) × (o ≡ some (record { value = zset l; deadline = d }))
      × (score m l ≡ some s)
zset_of_score none m s h = cc
zset_of_score (some e) m s h = of_value e.value e.deadline h
  where
    of_value :
        (v : Value) (d : Option ℕ)
        → score_in (some (record { value = v; deadline = d })) m ≡ some s
        → (l : List (Text × ℕ)) × (d' : Option ℕ) × ◌≡◌ {A = Option Entry}
            (some (record { value = v; deadline = d }))
            (some (record { value = zset l; deadline = d' }))
          × (score m l ≡ some s)
    of_value (zset l) d e = (l, d, refl, e)
    of_value (string t) d e = cc
    of_value (hash t) d e = cc

-- The entries of a group after `add_to_group`.
abbrev Added : Text → Text → ℕ → Option Entry → Keyspace → Keyspace → Type 0
Added group jti expires_at old ks ks' =
    (l : List (Text × ℕ)) × ((k : Text)
      → ks' k ≡ (
          if text_eq group k
          then some (record { value = zset l; deadline = some expires_at })
          else ks k))
    × ((other : Text)
        → score other l ≡ (if text_eq jti other then some expires_at else score_in old other))

-- EXPIREAT on a key that was just written.
expire_put :
    (group : Text) (expires_at now : ℕ) (l : List (Text × ℕ)) (d : Option ℕ) (ks ks' : Keyspace)
    → before now d ≡ true
    → expire_at group expires_at now (put group (some (record { value = zset l; deadline = d })) ks)
      ≡ some (tt, ks')
    → (k : Text)
    → ks' k ≡ (
        if text_eq group k
        then some (record { value = zset l; deadline = some expires_at })
        else ks k)
unfolding expire_at
expire_put group expires_at now l d ks ks' fresh e k =
    let (_, same) = effect_parts {a = tt} {ks' = ks'} e in
    ground (arith, same k, text_eq_refl group)

zadd_some :
    (group jti : Text) (s now : ℕ) (ks : Keyspace) (x : Entry)
    → zadd_entry jti s (live now ks group) ≡ some x
    → zadd group jti s now ks ≡ some (tt, put group (some x) ks)
unfolding zadd
zadd_some group jti s now ks x h = rw (h, zadd)

live-before :
    (now : ℕ) (ks : Keyspace) (k : Text) (x : Entry)
    → live now ks k ≡ some x
    → before now x.deadline ≡ true
live-before now ks k x h = elim (Option-cases (ks k)) [
  | inl absent ↦ ground arith
  | inr (y, here) ↦ ground arith
]

wrong_type :
    (group jti : Text) (expires_at now : ℕ) (ks ks' : Keyspace) (P : Type 0)
    → zadd_entry jti expires_at (live now ks group) ≡ none
    → add_effect group jti expires_at now ks ≡ some (tt, ks')
    → P
unfolding zadd
wrong_type group jti expires_at now ks ks' P wrong e =
    absurd (cc (rw (wrong, zadd, then_effect) at e))

add_value-Added :
    (group jti : Text) (expires_at now : ℕ) (ks ks' : Keyspace) (v : Value) (d : Option ℕ)
    → live now ks group ≡ some (record { value = v; deadline = d })
    → add_effect group jti expires_at now ks ≡ some (tt, ks')
    → Added group jti expires_at (some (record { value = v; deadline = d })) ks ks'
add_value-Added group jti expires_at now ks ks' (zset l) d here e = (
  zinsert jti expires_at l,
  expire_put group expires_at now _ d ks ks' (live-before now ks group _ here) (
      sym (
        then_effect-some (zadd group jti expires_at) (λ _. expire_at group expires_at) now ks
          (zadd_some group jti expires_at now ks _ (rw here)))
      ∙ e),
  λ other. score-zinsert jti other expires_at l,
)
add_value-Added group jti expires_at now ks ks' (string t) d here e =
    wrong_type group jti expires_at now ks ks' _ (rw here) e
add_value-Added group jti expires_at now ks ks' (hash t) d here e =
    wrong_type group jti expires_at now ks ks' _ (rw here) e

pub add_effect-Added :
    (group jti : Text) (expires_at now : ℕ) (ks ks' : Keyspace) (o : Option Entry)
    → live now ks group ≡ o
    → add_effect group jti expires_at now ks ≡ some (tt, ks')
    → Added group jti expires_at o ks ks'
add_effect-Added group jti expires_at now ks ks' none here e = (
  (jti, expires_at) ∷ [],
  expire_put group expires_at now _ none ks ks' refl (
      sym (
        then_effect-some (zadd group jti expires_at) (λ _. expire_at group expires_at) now ks
          (zadd_some group jti expires_at now ks _ (rw here)))
      ∙ e),
  λ other. refl,
)
add_effect-Added group jti expires_at now ks ks' (some x) here e =
    add_value-Added group jti expires_at now ks ks' x.value x.deadline here e

pub above_unlisted :
    (bound : ℕ) (m : Text) (l : List (Text × ℕ))
    → score m l ≡ none
    → contains (map (λ p. p.0) (above bound l)) m ≡ false
unfolding above
above_unlisted bound m [] h = refl
above_unlisted bound m ((k, t) ∷ l) h = ground (arith, above_unlisted bound m l)

-- A revocation that is answered found no group, or a sorted set.
pub revoke_cases :
    (group : Text) (now n : ℕ) (ks ks' : Keyspace)
    → revoke_effect group now ks ≡ some (n, ks')
    → (live now ks group ≡ none)
      ⊎ ((l : List (Text × ℕ)) × (d : Option ℕ) × (live now ks group
            ≡ some (record { value = zset l; deadline = d })))
unfolding zrembyscore
revoke_cases group now n ks ks' e = of_entry (live now ks group) refl
  where
    of_value :
        (v : Value) (d : Option ℕ)
        → live now ks group ≡ some (record { value = v; deadline = d })
        → (live now ks group ≡ none)
          ⊎ ((l : List (Text × ℕ)) × (d' : Option ℕ) × (live now ks group
                ≡ some (record { value = zset l; deadline = d' })))
    of_value (zset l) d h = inr (l, d, h)
    of_value (string t) d h = absurd (cc (rw (h, zrembyscore, then_effect) at e))
    of_value (hash t) d h = absurd (cc (rw (h, zrembyscore, then_effect) at e))

    of_entry :
        (o : Option Entry)
        → live now ks group ≡ o
        → (live now ks group ≡ none)
          ⊎ ((l : List (Text × ℕ)) × (d : Option ℕ) × (live now ks group
                ≡ some (record { value = zset l; deadline = d })))
    of_entry none h = inl h
    of_entry (some x) h = of_value x.value x.deadline h
