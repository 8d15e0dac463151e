-- ===== src/Redis/Keyspace.antt =====
-- The key space of Redis and the documented effect of each command on it.
use jwt_service_app.Base.{
  ℕ, ◌+◌, Bool, true, false, ◌&&◌, ◌||◌, Option, none, some, List, [], ◌∷◌, map, ltb, leb, ◌==◌,
  if◌then◌else◌,
}
use jwt_service_app.Base.Text.{Text, text_eq, codes}

pub data Value : Type 0 where
  string : Text → Value
  hash : List (Text × Text) → Value
  zset : List (Text × ℕ) → Value

-- A value, and the moment from which its key no longer exists.
pub record Entry : Type 0 where
  pub value : Value
  pub deadline : Option ℕ

abbrev pub Keyspace : Type 0
Keyspace = Text → Option Entry

abbrev pub put : Text → Option Entry → Keyspace → Keyspace
put k e ks j = if text_eq k j then e else ks j

abbrev pub before : ℕ → Option ℕ → Bool
before now none = true
before now (some d) = ltb now d

abbrev if_live : ℕ → Option Entry → Option Entry
if_live now none = none
if_live now (some e) = if before now e.deadline then some e else none

-- The entry of a key at a moment: an entry past its deadline does not exist.
abbrev pub live : ℕ → Keyspace → Text → Option Entry
live now ks k = if_live now (ks k)

-- A reply with the key space after it; `none` is an error reply, such as WRONGTYPE.
abbrev pub Effect : Type 0 → Type 0
Effect A = Option (A × Keyspace)

unfoldable pub set_ex : Text → Text → ℕ → ℕ → Keyspace → Effect (Unit {0})
set_ex k v ttl now ks =
    if ttl == 0
    then none
    else some (tt, put k (some (record { value = string v; deadline = some (now + ttl) })) ks)

abbrev pub is_live : Option Entry → Bool
is_live none = false
is_live (some e) = true

unfoldable pub exists : Text → ℕ → Keyspace → Effect Bool
exists k now ks = some (is_live (live now ks k), ks)

unfoldable pub del : List Text → ℕ → Keyspace → Effect (Unit {0})
del [] now ks = some (tt, ks)
del (k ∷ keys) now ks = del keys now (put k none ks)

-- SET with NX and EX: `some` if the key was created.
unfoldable pub set_nx_ex : Text → Text → ℕ → ℕ → Keyspace → Effect (Option Text)
set_nx_ex k v ttl now ks =
    if ttl == 0
    then none
    else if is_live (live now ks k)
    then some (none, ks)
    else some (
      some (codes "OK"),
      put k (some (record { value = string v; deadline = some (now + ttl) })) ks,
    )

abbrev pub at_deadline : ℕ → Option Entry → Option Entry
at_deadline d none = none
at_deadline d (some e) = some (record e { deadline = some d })

-- EXPIREAT: the deadline becomes this one, whether it is earlier or later than the old one.
unfoldable pub expire_at : Text → ℕ → ℕ → Keyspace → Effect (Unit {0})
expire_at k d now ks = some (tt, put k (at_deadline d (live now ks k)) ks)

unfoldable pub expire : Text → ℕ → ℕ → Keyspace → Effect (Unit {0})
unfolding expire_at
expire k ttl now ks = expire_at k (now + ttl) now ks

-- Sorted sets keep the order of ZRANGE: by score, then by member.
text_leb : Text → Text → Bool
text_leb [] b = true
text_leb (x ∷ a) [] = false
text_leb (x ∷ a) (y ∷ b) = ltb x y || (x == y && text_leb a b)

precedes : Text × ℕ → Text × ℕ → Bool
unfolding text_leb
precedes (m, s) (m', s') = ltb s s' || (s == s' && text_leb m m')

unfoldable pub erase_member : Text → List (Text × ℕ) → List (Text × ℕ)
erase_member m [] = []
erase_member m ((m', s) ∷ l) = if text_eq m m' then erase_member m l else (m', s) ∷ erase_member m l

unfoldable pub insert_sorted : Text × ℕ → List (Text × ℕ) → List (Text × ℕ)
unfolding precedes
insert_sorted e [] = e ∷ []
insert_sorted e (x ∷ l) = if precedes e x then e ∷ x ∷ l else x ∷ insert_sorted e l

unfoldable pub zinsert : Text → ℕ → List (Text × ℕ) → List (Text × ℕ)
unfolding erase_member insert_sorted
zinsert m s l = insert_sorted (m, s) (erase_member m l)

abbrev pub zadd_entry : Text → ℕ → Option Entry → Option Entry
zadd_entry m s none = some (record { value = zset ((m, s) ∷ []); deadline = none })
zadd_entry m s (some e) = elim e.value [
  | zset l ↦ some (record e { value = zset (zinsert m s l) })
  | _ ↦ none
]

abbrev pub write : Text → Option Entry → Keyspace → Effect (Unit {0})
write k none ks = none
write k (some e) ks = some (tt, put k (some e) ks)

unfoldable pub zadd : Text → Text → ℕ → ℕ → Keyspace → Effect (Unit {0})
unfolding zinsert
zadd k m s now ks = write k (zadd_entry m s (live now ks k)) ks

-- The members whose score is above the bound.
unfoldable pub above : ℕ → List (Text × ℕ) → List (Text × ℕ)
above bound [] = []
above bound ((m, s) ∷ l) = if leb s bound then above bound l else (m, s) ∷ above bound l

-- A sorted set that becomes empty is removed.
abbrev pub zset_or_none : Option ℕ → List (Text × ℕ) → Option Entry
zset_or_none d [] = none
zset_or_none d (x ∷ l) = some (record { value = zset (x ∷ l); deadline = d })

abbrev zrem_from : Text → ℕ → Option Entry → Keyspace → Effect (Unit {0})
zrem_from k bound none ks = some (tt, ks)
zrem_from k bound (some e) ks = elim e.value [
  | zset l ↦ some (tt, put k (zset_or_none e.deadline (above bound l)) ks)
  | _ ↦ none
]

-- ZREMRANGEBYSCORE from -inf up to and with the bound.
unfoldable pub zrembyscore : Text → ℕ → ℕ → Keyspace → Effect (Unit {0})
unfolding above
zrembyscore k bound now ks = zrem_from k bound (live now ks k) ks

abbrev pub members : Option Entry → Option (List Text)
members none = some []
members (some e) = elim e.value [ zset l ↦ some (map (λ p. p.0) l) | _ ↦ none ]

-- ZRANGE 0 -1.
unfoldable pub zrange : Text → ℕ → Keyspace → Effect (List Text)
zrange k now ks = elim (members (live now ks k)) [ none ↦ none | some l ↦ some (l, ks) ]

unfoldable pub hash_set : Text → Text → List (Text × Text) → List (Text × Text)
hash_set f v [] = (f, v) ∷ []
hash_set f v ((g, w) ∷ h) = if text_eq f g then (f, v) ∷ h else (g, w) ∷ hash_set f v h

unfoldable pub hash_set_all : List (Text × Text) → List (Text × Text) → List (Text × Text)
unfolding hash_set
hash_set_all [] h = h
hash_set_all ((f, v) ∷ fs) h = hash_set_all fs (hash_set f v h)

unfoldable pub hash_get : Text → List (Text × Text) → Option Text
hash_get f [] = none
hash_get f ((g, w) ∷ h) = if text_eq f g then some w else hash_get f h

abbrev pub hash_of : Option Entry → Option (List (Text × Text) × Option ℕ)
hash_of none = some ([], none)
hash_of (some e) = elim e.value [ hash h ↦ some (h, e.deadline) | _ ↦ none ]

abbrev pub hset_from :
    Text
    → List (Text × Text)
    → Option (List (Text × Text) × Option ℕ)
    → Keyspace
    → Effect (Unit {0})
hset_from k fs none ks = none
hset_from k fs (some (h, d)) ks =
    some (tt, put k (some (record { value = hash (hash_set_all fs h); deadline = d })) ks)

unfoldable pub hset_multiple : Text → List (Text × Text) → ℕ → Keyspace → Effect (Unit {0})
unfolding hash_set_all
hset_multiple k fs now ks = hset_from k fs (hash_of (live now ks k)) ks

abbrev pub hgetall_from :
    Option (List (Text × Text) × Option ℕ) → Keyspace → Effect (List (Text × Text))
hgetall_from none ks = none
hgetall_from (some (h, d)) ks = some (h, ks)

unfoldable pub hgetall : Text → ℕ → Keyspace → Effect (List (Text × Text))
hgetall k now ks = hgetall_from (hash_of (live now ks k)) ks

abbrev pub hset_nx_from :
    Text → Text → Text → Option (List (Text × Text) × Option ℕ) → Keyspace → Effect Bool
hset_nx_from k f v none ks = none
hset_nx_from k f v (some (h, d)) ks = elim (hash_get f h) [
  | some w ↦ some (false, ks)
  | none ↦ some (true, put k (some (record { value = hash (hash_set f v h); deadline = d })) ks)
]

-- HSETNX: true if the field was not there; a missing key becomes a hash of this field.
unfoldable pub hset_nx : Text → Text → Text → ℕ → Keyspace → Effect Bool
unfolding hash_get hash_set
hset_nx k f v now ks = hset_nx_from k f v (hash_of (live now ks k)) ks
