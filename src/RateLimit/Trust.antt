-- ===== src/RateLimit/Trust.antt =====
-- rate_limit.rs: whose word on the client's address counts.
use jwt_service_app.Base.{
  ◌≡◌, refl, sym, ap, subst, ◌∙◌, true, false, Option, some, List, [], ◌∷◌, ◌++◌, All,
}
use mathlib.Core.List.{reverse, reverse-append, reverse-cons, append_assoc}
use jwt_service_app.Base.Text.{Text}
use jwt_service_app.RateLimit.Address.{IpAddr, IpParser, canonical, group_v6, Cidr, ip_is_trusted}
use jwt_service_app.RateLimit.Client.{first_untrusted, client_of, resolve_key_ip}

abbrev IsProxy : List Cidr → IpAddr → Type 0
IsProxy trusted ip = ip_is_trusted ip trusted ≡ some true

first_untrusted-skips :
    (trusted : List Cidr) (proxies rest : List IpAddr)
    → All (IsProxy trusted) proxies
    → first_untrusted trusted (proxies ++ rest) ≡ first_untrusted trusted rest
unfolding first_untrusted
first_untrusted-skips trusted [] rest h = refl
first_untrusted-skips trusted (ip ∷ proxies) rest (h, hs) =
    rw (h, first_untrusted) (first_untrusted-skips trusted proxies rest hs)

All-append : (P : IpAddr → Type 0) (l m : List IpAddr) → All P l → All P m → All P (l ++ m)
All-append P [] m hl hm = hm
All-append P (x ∷ l) m (h, hl) hm = (h, All-append P l m hl hm)

All-reverse : (P : IpAddr → Type 0) (l : List IpAddr) → All P l → All P (reverse l)
All-reverse P [] h = tt
All-reverse P (x ∷ l) (h, hs) =
    subst (All P) (sym (reverse-cons x l)) (All-append P _ _ (All-reverse P l hs) (h, tt))

first_untrusted-own :
    (trusted : List Cidr) (ip : IpAddr) (rest : List IpAddr)
    → ip_is_trusted ip trusted ≡ some false
    → first_untrusted trusted (ip ∷ rest) ≡ some (some ip)
unfolding first_untrusted
first_untrusted-own trusted ip rest own = rw (own, first_untrusted) refl

-- The address that the trusted proxies vouch for wins, whatever a client wrote to the left of it:
-- after an address that is no proxy's, with only proxies to its right, the entries before it do not
-- matter.
pub client_of-spoofed :
    (trusted : List Cidr) (spoofed proxies : List IpAddr) (ip : IpAddr)
    → ip_is_trusted ip trusted ≡ some false
    → All (λ q. ip_is_trusted q trusted ≡ some true) proxies
    → client_of trusted (spoofed ++ (ip ∷ proxies)) ≡ some (some ip)
unfolding client_of
client_of-spoofed trusted spoofed proxies ip own hops =
    let order : reverse (spoofed ++ (ip ∷ proxies)) ≡ reverse proxies ++ (ip ∷ reverse spoofed) =
      reverse-append spoofed (ip ∷ proxies)
      ∙ (ap (λ l. l ++ reverse spoofed) (reverse-cons ip proxies)
          ∙ append_assoc (reverse proxies) (ip ∷ []) (reverse spoofed)) in
    let found : first_untrusted trusted (reverse (spoofed ++ (ip ∷ proxies))) ≡ some (some ip) =
      ap (first_untrusted trusted) order
      ∙ (first_untrusted-skips trusted (reverse proxies) (ip ∷ reverse spoofed)
            (All-reverse (IsProxy trusted) proxies hops)
          ∙ first_untrusted-own trusted ip (reverse spoofed) own) in
    rw (found, client_of) refl

-- A peer that is no trusted proxy is itself the key: the forwarding header it sends is ignored.
resolve_key_ip-direct :
    (parse_ip : IpParser) (peer : IpAddr) (values : List (Option Text)) (trusted : List Cidr)
    → ip_is_trusted (canonical peer) trusted ≡ some false
    → resolve_key_ip parse_ip (some peer) values trusted ≡ some (some (group_v6 (canonical peer)))
unfolding resolve_key_ip
resolve_key_ip-direct parse_ip peer values trusted own = rw (own, resolve_key_ip) refl
