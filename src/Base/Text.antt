-- ===== src/Base/Text.antt =====
-- Texts as lists of code points, with the functions of Rust's `str` that the program calls.
use Prim.Native.Char.{code}
use Prim.Native.String.{String}
use Prim.Native.Nat.{ℕ, ◌+◌, ◌-◌, ◌*◌, ◌/◌, ◌%◌, ◌≤◌, ◌<◌, ◌^◌}
use mathlib.Core.Path.{◌≡◌, refl, ap}
use mathlib.Core.Logic.{◌↔◌, ◌≢◌}
use mathlib.Core.Bool.{Bool, true, false, not, ◌&&◌, ◌||◌}
use mathlib.Core.Option.{Option, none, some}
use mathlib.Core.List.{List, [], ◌∷◌, ◌++◌, map, reverse}
use native.Mathlib.Omega.{arith}
use jwt_service_app.Base.Tests.{ltb, leb, ◌==◌, if◌then◌else◌}
use jwt_service_app.Base.Lists.{any, all, length, length-append}

abbrev pub Text : Type 0
Text = List ℕ

-- The code points of a literal. `String` has its own `[]` and `∷`.
abbrev pub codes : String → Text
codes String.[] = []
codes (String.◌∷◌ c s) = code c ∷ codes s

unfoldable pub text_eq : Text → Text → Bool
text_eq [] [] = true
text_eq [] (b ∷ bs) = false
text_eq (a ∷ as') [] = false
text_eq (a ∷ as') (b ∷ bs) = a == b && text_eq as' bs

pub text_eq_sound : (a b : Text) → text_eq a b ≡ true → a ≡ b
unfolding text_eq
text_eq_sound [] [] h = refl
text_eq_sound [] (b ∷ bs) h = cc
text_eq_sound (a ∷ as') [] h = cc
text_eq_sound (a ∷ as') (b ∷ bs) h = ground (arith, text_eq_sound as' bs)

pub text_eq_refl : (a : Text) → text_eq a a ≡ true
unfolding text_eq
text_eq_refl [] = refl
text_eq_refl (a ∷ as') = ground (arith, text_eq_refl as')

pub text_eq_iff : (a b : Text) → (text_eq a b ≡ true) ↔ (a ≡ b)
text_eq_iff a b = (text_eq_sound a b, λ e. rw e (text_eq_refl b))

-- Two texts that the test tells apart, such as two literals with different rests.
pub ne_of_text_eq : (a b : Text) → text_eq a b ≡ false → a ≢ b
ne_of_text_eq a b h e = cc (text_eq_refl b, ap (λ t. text_eq t b) e)

-- `slice::contains`
abbrev pub contains : List Text → Text → Bool
contains l t = any (λ x. text_eq x t) l

-- `to_ascii_lowercase`, `to_ascii_uppercase`
unfoldable pub ascii_lower : ℕ → ℕ
ascii_lower c = if leb b'A' c && leb c b'Z' then c + 32 else c

unfoldable pub ascii_upper : ℕ → ℕ
ascii_upper c = if leb b'a' c && leb c b'z' then c - 32 else c

unfoldable pub to_ascii_lowercase : Text → Text
unfolding ascii_lower
to_ascii_lowercase = map ascii_lower

unfoldable pub to_ascii_uppercase : Text → Text
unfolding ascii_upper
to_ascii_uppercase = map ascii_upper

-- `char::is_whitespace`: the code points with Unicode's White_Space property.
unfoldable pub is_whitespace : ℕ → Bool
is_whitespace c =
    c == 32
    || (leb 9 c && leb c 13)
    || c == 0x85
    || c == 0xa0
    || c == 0x1680
    || (leb 0x2000 c && leb c 0x200a)
    || c == 0x2028
    || c == 0x2029
    || c == 0x202f
    || c == 0x205f
    || c == 0x3000

unfoldable pub trim_start : Text → Text
unfolding is_whitespace
trim_start [] = []
trim_start (c ∷ s) = if is_whitespace c then trim_start s else c ∷ s

unfoldable pub trim : Text → Text
unfolding trim_start
trim s = reverse (trim_start (reverse (trim_start s)))

-- The UTF-8 bytes of a text.
abbrev pub utf8_char : ℕ → List ℕ
utf8_char c =
    if ltb c 0x80
    then c ∷ []
    else if ltb c 0x800
    then (0xc0 + c / 64) ∷ (0x80 + c % 64) ∷ []
    else if ltb c 0x10000
    then (0xe0 + c / 4096) ∷ (0x80 + (c / 64) % 64) ∷ (0x80 + c % 64) ∷ []
    else (0xf0 + c / 262144)
      ∷ (0x80 + (c / 4096) % 64)
      ∷ (0x80 + (c / 64) % 64)
      ∷ (0x80 + c % 64)
      ∷ []

unfoldable pub as_bytes : Text → List ℕ
as_bytes [] = []
as_bytes (c ∷ s) = utf8_char c ++ as_bytes s

utf8_char-length : (c : ℕ) → 1 ≤ length (utf8_char c)
utf8_char-length c = ground arith

pub as_bytes-length : (c : ℕ) (s : Text) → 1 ≤ length (as_bytes (c ∷ s))
unfolding as_bytes
as_bytes-length c s = omega (arith, length-append (utf8_char c) (as_bytes s), utf8_char-length c)

-- `str::split` on one character: the parts are never none.
abbrev prepend : ℕ → List Text → List Text
prepend c [] = (c ∷ []) ∷ []
prepend c (p ∷ ps) = (c ∷ p) ∷ ps

unfoldable pub split : ℕ → Text → List Text
split d [] = [] ∷ []
split d (c ∷ s) = let rest = split d s in if c == d then [] ∷ rest else prepend c rest

pub split-no_separator : (d : ℕ) (s : Text) → all (λ c. not (c == d)) s ≡ true → split d s ≡ s ∷ []
unfolding split
split-no_separator d [] h = refl
split-no_separator d (c ∷ s) h = ground (arith, h, split-no_separator d s (ground (arith, h)))

pub split-append :
    (d : ℕ) (s t : Text) → all (λ c. not (c == d)) s ≡ true → split d (s ++ (d ∷ t)) ≡ s ∷ split d t
unfolding split
split-append d [] t h = ground arith
split-append d (c ∷ s) t h = ground (arith, h, split-append d s t (ground (arith, h)))

-- `str::split_whitespace`: the parts between white space that are not empty.
unfoldable pub split_where : (ℕ → Bool) → Text → List Text
split_where p [] = [] ∷ []
split_where p (c ∷ s) = let rest = split_where p s in if p c then [] ∷ rest else prepend c rest

unfoldable pub without_empty : List Text → List Text
without_empty [] = []
without_empty ([] ∷ parts) = without_empty parts
without_empty ((c ∷ s) ∷ parts) = (c ∷ s) ∷ without_empty parts

unfoldable pub split_whitespace : Text → List Text
unfolding split_where without_empty is_whitespace
split_whitespace s = without_empty (split_where is_whitespace s)

-- `str::split_once`
unfoldable pub split_once : ℕ → Text → Option (Text × Text)
split_once d [] = none
split_once d (c ∷ s) =
    let rest : Option (Text × Text) = split_once d s in
    if c == d then some ([], s) else elim rest [ none ↦ none | some (a, b) ↦ some (c ∷ a, b) ]

-- `str::rsplit_once`
unfoldable pub rsplit_once : ℕ → Text → Option (Text × Text)
unfolding split_once
rsplit_once d s = elim (split_once d (reverse s)) [
  | none ↦ none
  | some (b, a) ↦ some (reverse a, reverse b)
]

-- `str::parse` into an unsigned integer below `bound`: an optional `+`, then decimal digits.
parse_digits : ℕ → ℕ → Text → Option ℕ
parse_digits bound n [] = some n
parse_digits bound n (c ∷ s) =
    let n' = n * 10 + (c - 48) in
    let rest = parse_digits bound n' s in
    if leb 48 c && leb c 57 && ltb n' bound then rest else none

unfoldable pub parse_nonempty : ℕ → Text → Option ℕ
unfolding parse_digits
parse_nonempty bound [] = none
parse_nonempty bound (c ∷ s) = parse_digits bound 0 (c ∷ s)

unfoldable pub parse_uint : ℕ → Text → Option ℕ
unfolding parse_nonempty
parse_uint bound [] = none
parse_uint bound (c ∷ s) =
    if c == b'+' then parse_nonempty bound s else parse_nonempty bound (c ∷ s)

parse_digits-lt :
    (bound n : ℕ) (s : Text) {v : ℕ} → n < bound → parse_digits bound n s ≡ some v → v < bound
unfolding parse_digits
parse_digits-lt bound n [] h e = ground arith
parse_digits-lt bound n (c ∷ s) {v} h e =
    ground (arith, parse_digits-lt bound (n * 10 + (c - 48)) s {v = v})

parse_nonempty-lt :
    (bound : ℕ) (s : Text) {v : ℕ} → parse_nonempty bound s ≡ some v → 0 < bound → v < bound
unfolding parse_nonempty
parse_nonempty-lt bound [] e h = cc
parse_nonempty-lt bound (c ∷ s) e h = parse_digits-lt bound 0 (c ∷ s) h e

-- A parsed number fits its type.
pub parse_uint-lt :
    (bound : ℕ) (s : Text) {v : ℕ} → parse_uint bound s ≡ some v → 0 < bound → v < bound
unfolding parse_uint
parse_uint-lt bound [] e h = cc
parse_uint-lt bound (c ∷ s) {v} e h =
    ground (arith, parse_nonempty-lt bound s {v = v}, parse_nonempty-lt bound (c ∷ s) {v = v})

pub ruleset text_laws = (text_eq_iff, text_eq_refl)

trim_test : trim (codes "  a b ") ≡ codes "a b"
unfolding trim
trim_test = refl

split_test : split b',' (codes "a,,b") ≡ codes "a" ∷ [] ∷ codes "b" ∷ []
unfolding split
split_test = refl

parse_test : parse_uint (2 ^ 8) (codes "+255") ≡ some 255
unfolding parse_uint
parse_test = refl
