-- ===== src/RateLimit/Address.antt =====
-- rate_limit.rs: `canonical`, `group_v6`, `prefix_match` and `Cidr`. The parser of `IpAddr` is a
-- parameter; an address is its octets.
use Prim.Native.Nat.{bit_and}
use jwt_service_app.Base.{
  ℕ, ◌-◌, ◌*◌, ◌/◌, ◌%◌, ◌^◌, Bool, true, false, not, ◌||◌, Option, none, some, List, [], ◌∷◌, ◌++◌,
  take, drop, replicate, length, get_elem?, ltb, ◌==◌, if◌then◌else◌,
}
use jwt_service_app.Base.Text.{Text, text_eq, trim, split_once, parse_uint}

pub data IpAddr : Type 0 where
  v4 v6 : List ℕ → IpAddr

-- `<IpAddr as FromStr>`
abbrev pub IpParser : Type 0
IpParser = Text → Option IpAddr

abbrev mapped_prefix : List ℕ
mapped_prefix = replicate 10 0 ++ 255 ∷ 255 ∷ []

-- `to_ipv4_mapped` on an IPv6 address.
unfoldable pub canonical : IpAddr → IpAddr
canonical (v4 a) = v4 a
canonical (v6 a) = if text_eq (take 12 a) mapped_prefix then v4 (drop 12 a) else v6 a

-- The last nine octets are cleared: the /56 stays.
unfoldable pub group_v6 : IpAddr → IpAddr
group_v6 (v4 a) = v4 a
group_v6 (v6 a) = v6 (take 7 a ++ replicate 9 0)

-- `0xffu8 << (8 - rem)`
abbrev pub mask_of : ℕ → ℕ
mask_of rem = (0xff * 2 ^ (8 - rem)) % 2 ^ 8

abbrev pub masked_eq : ℕ → Option ℕ → Option ℕ → Option Bool
masked_eq mask (some x) (some y) = some (bit_and x mask == bit_and y mask)
masked_eq mask _ _ = none

-- none where the source would panic: a slice or an index out of bounds.
unfoldable pub prefix_match : List ℕ → List ℕ → ℕ → Option Bool
prefix_match a b prefix =
    let whole = prefix / 8 in
    if ltb (length a) whole || ltb (length b) whole
    then none
    else if not (text_eq (take whole a) (take whole b))
    then some false
    else if prefix % 8 == 0
    then some true
    else masked_eq (mask_of (prefix % 8)) (get_elem? a whole) (get_elem? b whole)

pub record Cidr : Type 0 where
  pub addr : IpAddr
  pub prefix : ℕ

abbrev pub max_prefix : IpAddr → ℕ
max_prefix (v4 a) = 32
max_prefix (v6 a) = 128

abbrev with_prefix : IpAddr → Option ℕ → Option Cidr
with_prefix addr none = none
with_prefix addr (some p) =
    if ltb (max_prefix addr) p then none else some (record { addr = addr; prefix = p })

abbrev with_written_prefix : IpAddr → Option Text → Option Cidr
with_written_prefix addr none = some (record { addr = addr; prefix = max_prefix addr })
with_written_prefix addr (some p) = with_prefix addr (parse_uint (2 ^ 8) p)

abbrev parse_parts : IpParser → Text × Option Text → Option Cidr
parse_parts parse_ip (a, p) = elim (parse_ip a) [
  | none ↦ none
  | some ip ↦ with_written_prefix (canonical ip) p
]

abbrev split_cidr : Text → Text × Option Text
split_cidr input = elim (split_once b'/' input) [
  | none ↦ (input, none)
  | some (a, p) ↦ (trim a, some (trim p))
]

unfoldable pub parse_cidr : IpParser → Text → Option Cidr
unfolding canonical
parse_cidr parse_ip input = parse_parts parse_ip (split_cidr (trim input))

abbrev in_range : IpAddr → IpAddr → ℕ → Option Bool
in_range (v4 a) (v4 b) prefix = prefix_match a b prefix
in_range (v6 a) (v6 b) prefix = prefix_match a b prefix
in_range _ _ prefix = some false

unfoldable pub contains_ip : Cidr → IpAddr → Option Bool
unfolding prefix_match
contains_ip c ip = in_range c.addr ip c.prefix

abbrev or_else_later : Option Bool → Option Bool → Option Bool
or_else_later none later = none
or_else_later (some true) later = some true
or_else_later (some false) later = later

-- `ip_is_trusted`: the ranges in turn, up to one that contains the address.
unfoldable pub ip_is_trusted : IpAddr → List Cidr → Option Bool
unfolding contains_ip
ip_is_trusted ip [] = some false
ip_is_trusted ip (c ∷ trusted) = or_else_later (contains_ip c ip) (ip_is_trusted ip trusted)
