-- ===== src/Redis/Groups.antt =====
-- Groups of tokens on the key space: what ZADD with EXPIREAT adds, and what a bulk revocation
-- deletes.

use jwt_service_app.Base.{
  ℕ, suc, ◌<◌, ◌≡◌, refl, sym, ap, ◌∙◌, true, false, ◌||◌, Option, none, some, List, [], ◌∷◌, map,
  length, if◌then◌else◌, arith,
}
use jwt_service_app.Base.Text.{Text, text_eq, text_eq_iff, text_eq_refl, contains}
use jwt_service_app.Redis.Keyspace.{
  zset, Entry, Keyspace, Effect, put, live, del, zinsert, erase_member, insert_sorted, above,
  members, zset_or_none, zrembyscore, zrange,
}
use jwt_service_app.Redis.Refines.{then_effect, give, revoke_effect, revoke_rest, revoke_listed}

-- The score of a member.
abbrev pub score : Text → List (Text × ℕ) → Option ℕ
score m [] = none
score m ((j, s) ∷ l) = if text_eq j m then some s else score m l

score-erase_member :
    (m j : Text) (l : List (Text × ℕ))
    → score j (erase_member m l) ≡ (if text_eq m j then none else score j l)
unfolding erase_member
score-erase_member m j [] = ground arith
score-erase_member m j ((k, s) ∷ l) =
    ground (arith, score-erase_member m j l, text_eq_iff m k, text_eq_iff m j, text_eq_iff k j)

score-insert_sorted :
    (m j : Text) (s : ℕ) (l : List (Text × ℕ))
    → score m l ≡ none
    → score j (insert_sorted (m, s) l) ≡ (if text_eq m j then some s else score j l)
unfolding insert_sorted
score-insert_sorted m j s [] h = refl
score-insert_sorted m j s ((k, t) ∷ l) h =
    ground (arith, score-insert_sorted m j s l, text_eq_iff k m, text_eq_iff m j, text_eq_iff k j)

-- An added member has the score that it was added with, and the others keep theirs.
pub score-zinsert :
    (m j : Text) (s : ℕ) (l : List (Text × ℕ))
    → score j (zinsert m s l) ≡ (if text_eq m j then some s else score j l)
unfolding zinsert
score-zinsert m j s l = ground (
  arith,
  score-insert_sorted m j s (erase_member m l),
  score-erase_member m j l,
  score-erase_member m m l,
  text_eq_refl m,
)

abbrev pub score_in : Option Entry → Text → Option ℕ
score_in none m = none
score_in (some e) m = elim e.value [ zset l ↦ score m l | _ ↦ none ]

-- The score of a member of a group at a moment.
abbrev pub group_score : ℕ → Keyspace → Text → Text → Option ℕ
group_score now ks group m = score_in (live now ks group) m

pub contains-above :
    (bound s : ℕ) (m : Text) (l : List (Text × ℕ))
    → score m l ≡ some s
    → bound < s
    → contains (map (λ p. p.0) (above bound l)) m ≡ true
unfolding above
contains-above bound s m [] e h = cc
contains-above bound s m ((k, t) ∷ l) e h = ground (arith, contains-above bound s m l)

-- DEL removes the keys that it names and no other.
pub del_lem :
    (keys : List Text) (now : ℕ) (ks : Keyspace)
    → (ks' : Keyspace) × (del keys now ks ≡ some (tt, ks'))
      × ((k : Text) → ks' k ≡ (if contains keys k then none else ks k))
unfolding del
del_lem [] now ks = (ks, refl, λ k. refl)
del_lem (j ∷ keys) now ks =
    let (ks', done, rest) = del_lem keys now (put j none ks) in
    (ks', done, λ k. ground (arith, rest k))

abbrev entry_of : {A : Type 0} → Text → Effect A → Option Entry
entry_of k none = none
entry_of k (some (a, ks)) = ks k

-- Two equal replies: the results are equal, and the key spaces agree at every key.
pub effect_parts :
    {A : Type 0} {a b : A} {ks ks' : Keyspace}
    → ◌≡◌ {A = Effect A} (some (a, ks)) (some (b, ks'))
    → (a ≡ b) × ((k : Text) → ks k ≡ ks' k)
effect_parts h = (cc, λ k. ap (entry_of k) h)

-- Once the first effect is known, what is left is the rest.
pub then_effect-some :
    {A B : Type 0} (e : ℕ → Keyspace → Effect A) (f : A → ℕ → Keyspace → Effect B) (now : ℕ)
    (ks : Keyspace) {a : A} {ks' : Keyspace}
    → e now ks ≡ some (a, ks')
    → then_effect e f now ks ≡ f a now ks'
then_effect-some e f now ks h = rw (h, then_effect)

revoke_listed_lem :
    (group : Text) (jtis : List Text) (now n : ℕ) (ks ks' : Keyspace)
    → revoke_listed group jtis now ks ≡ some (n, ks')
    → (n ≡ length jtis)
      × ((k : Text)
          → ks' k ≡ (if text_eq group k then none else if contains jtis k then none else ks k))
revoke_listed_lem group jtis now n ks ks' e =
    let (ks1, done, rest) = del_lem jtis now ks in
    let (ks2, done', rest') = del_lem (group ∷ []) now ks1 in
    let (count, same) = effect_parts {a = length jtis} {ks = ks2} (
      sym (then_effect-some (del (group ∷ [])) (λ _. give (length jtis)) now ks1 done')
      ∙ sym (
          then_effect-some (del jtis)
            (λ _. then_effect (del (group ∷ [])) (λ _. give (length jtis))) now ks done)
      ∙ e) in
    (sym count, λ k. ground (arith, rest k, rest' k, same k))

revoke_rest_lem :
    (group : Text) (jtis : List Text) (now n : ℕ) (ks ks' : Keyspace)
    → members (live now ks group) ≡ some jtis
    → revoke_rest group now ks ≡ some (n, ks')
    → (n ≡ length jtis)
      × ((k : Text)
          → ks' k ≡ (if text_eq group k then none else if contains jtis k then none else ks k))
unfolding zrange
revoke_rest_lem group jtis now n ks ks' here e =
    revoke_listed_lem group jtis now n ks ks'
      (sym (then_effect-some (zrange group) (revoke_listed group) now ks listed) ∙ e)
  where
    listed : zrange group now ks ≡ some (jtis, ks)
    listed = rw (here, zrange)

members_trimmed :
    (group : Text) (now : ℕ) (ks : Keyspace) (l : List (Text × ℕ)) (d : Option ℕ)
    → live now ks group ≡ some (record { value = zset l; deadline = d })
    → members (live now (put group (zset_or_none d (above now l)) ks) group)
      ≡ some (map (λ p. p.0) (above now l))
members_trimmed group now ks l d here = ground (arith, text_eq_refl group)

length_members : (l : List (Text × ℕ)) → length (map (λ p. p.0) l) ≡ length l
length_members [] = refl
length_members (x ∷ l) = ap suc (length_members l)

-- What a bulk revocation does to the key space: the members whose score is not in the past are
-- deleted, and so is the group; nothing else changes, and the reply counts those members.
pub revoke_effect_lem :
    (group : Text) (now n : ℕ) (ks ks' : Keyspace) (l : List (Text × ℕ)) (d : Option ℕ)
    → live now ks group ≡ some (record { value = zset l; deadline = d })
    → revoke_effect group now ks ≡ some (n, ks')
    → (n ≡ length (above now l))
      × ((k : Text)
          → ks' k
            ≡ (if text_eq group k || contains (map (λ p. p.0) (above now l)) k then none else ks k))
revoke_effect_lem group now n ks ks' l d here e =
    let ks1 = put group (zset_or_none d (above now l)) ks in
    let (count, rest) =
      revoke_rest_lem group (map (λ p. p.0) (above now l)) now n ks1 ks'
        (members_trimmed group now ks l d here)
        (sym (then_effect-some (zrembyscore group now) (λ _. revoke_rest group) now ks removed)
          ∙ e) in
    (count ∙ length_members (above now l), λ k. ground (arith, rest k))
  where
    removed : zrembyscore group now now ks ≡ some (tt, put group (zset_or_none d (above now l)) ks)
    removed = unfold zrembyscore in rw (here, zrembyscore)

-- With no group there is nothing to revoke.
pub revoke_effect-none :
    (group : Text) (now n : ℕ) (ks ks' : Keyspace)
    → live now ks group ≡ none
    → revoke_effect group now ks ≡ some (n, ks')
    → (n ≡ 0) × ((k : Text) → text_eq group k ≡ false → ks' k ≡ ks k)
revoke_effect-none group now n ks ks' here e =
    let (count, rest) = revoke_rest_lem group [] now n ks ks' (ap members here) (
      sym (then_effect-some (zrembyscore group now) (λ _. revoke_rest group) now ks removed) ∙ e) in
    (count, λ k h. ground (arith, rest k))
  where
    removed : zrembyscore group now now ks ≡ some (tt, ks)
    removed = unfold zrembyscore in rw (here, zrembyscore)
