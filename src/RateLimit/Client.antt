-- ===== src/RateLimit/Client.antt =====
-- rate_limit.rs: `parse_forwarded_ip`, `client_from_forwarded` and `resolve_key_ip`. In an answer
-- `none` outside is a panic.
use jwt_service_app.Base.{Bool, true, false, Option, none, some, List, [], ◌∷◌, ◌++◌}
use mathlib.Core.List.{reverse}
use jwt_service_app.Base.Text.{Text, trim, split, rsplit_once}
use jwt_service_app.RateLimit.Address.{IpAddr, IpParser, canonical, group_v6, Cidr, ip_is_trusted}

abbrev canonical? : Option IpAddr → Option IpAddr
canonical? none = none
canonical? (some ip) = some (canonical ip)

abbrev before_port : IpParser → Option (Text × Text) → Option IpAddr
before_port parse_ip none = none
before_port parse_ip (some (host, port)) = parse_ip host

abbrev or_before_port : IpParser → Text → Option IpAddr → Option IpAddr
or_before_port parse_ip entry (some ip) = some ip
or_before_port parse_ip entry none = before_port parse_ip (rsplit_once b':' entry)

unfoldable pub parse_forwarded_ip : IpParser → Text → Option IpAddr
unfolding canonical rsplit_once trim
parse_forwarded_ip parse_ip entry =
    let entry' = trim entry in canonical? (or_before_port parse_ip entry' (parse_ip entry'))

abbrev and_more : Option IpAddr → List IpAddr → List IpAddr
and_more none ips = ips
and_more (some ip) ips = ip ∷ ips

unfoldable pub parse_entries : IpParser → List Text → List IpAddr
unfolding parse_forwarded_ip
parse_entries parse_ip [] = []
parse_entries parse_ip (part ∷ parts) =
    and_more (parse_forwarded_ip parse_ip part) (parse_entries parse_ip parts)

-- The addresses of all values of the header, in order; a value that is no text is skipped.
unfoldable pub forwarded_ips : IpParser → List (Option Text) → List IpAddr
unfolding parse_entries split
forwarded_ips parse_ip [] = []
forwarded_ips parse_ip (none ∷ values) = forwarded_ips parse_ip values
forwarded_ips parse_ip (some value ∷ values) =
    parse_entries parse_ip (split b',' value) ++ forwarded_ips parse_ip values

abbrev unless_trusted : IpAddr → Option Bool → Option (Option IpAddr) → Option (Option IpAddr)
unless_trusted ip none later = none
unless_trusted ip (some true) later = later
unless_trusted ip (some false) later = some (some ip)

-- The first address that no range contains.
unfoldable pub first_untrusted : List Cidr → List IpAddr → Option (Option IpAddr)
unfolding ip_is_trusted
first_untrusted trusted [] = some none
first_untrusted trusted (ip ∷ ips) =
    unless_trusted ip (ip_is_trusted ip trusted) (first_untrusted trusted ips)

abbrev head? : List IpAddr → Option IpAddr
head? [] = none
head? (ip ∷ ips) = some ip

abbrev or_leftmost : List IpAddr → Option (Option IpAddr) → Option (Option IpAddr)
or_leftmost ips none = none
or_leftmost ips (some none) = some (head? ips)
or_leftmost ips (some (some ip)) = some (some ip)

unfoldable pub client_of : List Cidr → List IpAddr → Option (Option IpAddr)
unfolding first_untrusted
client_of trusted ips = or_leftmost ips (first_untrusted trusted (reverse ips))

unfoldable pub client_from_forwarded :
    IpParser → List (Option Text) → List Cidr → Option (Option IpAddr)
unfolding forwarded_ips client_of
client_from_forwarded parse_ip values trusted = client_of trusted (forwarded_ips parse_ip values)

abbrev or_peer : IpAddr → Option (Option IpAddr) → Option IpAddr
or_peer peer none = none
or_peer peer (some none) = some peer
or_peer peer (some (some ip)) = some ip

abbrev choose : IpParser → List (Option Text) → List Cidr → IpAddr → Option Bool → Option IpAddr
choose parse_ip values trusted peer none = none
choose parse_ip values trusted peer (some true) =
    or_peer peer (client_from_forwarded parse_ip values trusted)
choose parse_ip values trusted peer (some false) = some peer

abbrev grouped : Option IpAddr → Option (Option IpAddr)
grouped none = none
grouped (some ip) = some (some (group_v6 ip))

-- The key of a request, from its peer address and the values of the header.
unfoldable pub resolve_key_ip :
    IpParser → Option IpAddr → List (Option Text) → List Cidr → Option (Option IpAddr)
unfolding client_from_forwarded ip_is_trusted canonical group_v6
resolve_key_ip parse_ip none values trusted = some none
resolve_key_ip parse_ip (some peer) values trusted =
    let peer' = canonical peer in
    grouped (choose parse_ip values trusted peer' (ip_is_trusted peer' trusted))
