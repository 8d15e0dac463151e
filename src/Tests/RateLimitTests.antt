-- ===== src/Tests/RateLimitTests.antt =====
-- Runs of rate_limit.rs and issuer.rs.
use jwt_service_app.Base.{
  ◌<◌, ◌≡◌, ◌↔◌, ◌⊎◌, refl, true, all, none, some, List, [], ◌∷◌, ◌++◌, if◌then◌else◌,
}
use jwt_service_app.Base.Text.{codes, text_eq, to_ascii_lowercase}
use jwt_service_app.Env.{Env}
use jwt_service_app.Issuer.{is_allowed}
use jwt_service_app.Issuer.Laws.{is_allowed_iff, is_blank, entries, Lists}
use jwt_service_app.RateLimit.Address.{IpAddr, v4, IpParser, Cidr, prefix_match}
use jwt_service_app.RateLimit.Client.{client_of}
use jwt_service_app.RateLimit.Limiter.{quota}
use jwt_service_app.RateLimit.Trust.{client_of-spoofed}
use jwt_service_app.RateLimit.Bounds.{quota-none}

abbrev ten : List Cidr
ten = record { addr = v4 (10 ∷ 0 ∷ 0 ∷ 0 ∷ []); prefix = 8 } ∷ []

abbrev proxy : IpAddr
proxy = v4 (10 ∷ 1 ∷ 2 ∷ 3 ∷ [])

abbrev client : IpAddr
client = v4 (192 ∷ 0 ∷ 2 ∷ 1 ∷ [])

abbrev no_parser : IpParser
no_parser t = none

client_of-spoofed_example :
    client_of ten ((proxy ∷ []) ++ (client ∷ proxy ∷ proxy ∷ [])) ≡ some (some client)
unfolding jwt_service_app.RateLimit.Address.ip_is_trusted text_eq
client_of-spoofed_example =
    client_of-spoofed ten (proxy ∷ []) (proxy ∷ proxy ∷ []) client refl (refl, (refl, tt))

quota-none_example : (quota 1000000001 5 ≡ none) ↔ (1000000000 < 1000000001)
quota-none_example = quota-none 1000000001 5

abbrev one_issuer : Env
one_issuer name =
    if text_eq name (codes "TOKEN_ISSUER_ALLOWLIST") then some (codes " Auth.example ") else none

is_allowed_iff_example : (is_allowed one_issuer (codes "AUTH.example") ≡ true) ↔ (
    (all is_blank (entries one_issuer) ≡ true)
    ⊎ Lists (entries one_issuer) (to_ascii_lowercase (codes "AUTH.example")))
is_allowed_iff_example = is_allowed_iff one_issuer (codes "AUTH.example")
