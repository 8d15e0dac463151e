-- ===== src/Tests/ApiDocTests.antt =====
-- Runs of the application against its description.
use jwt_service_app.Base.{ℕ, ◌≡◌, refl, true, false, some, [], ◌∷◌, ◌++◌, All, if◌then◌else◌, none}
use jwt_service_app.Base.Text.{codes, text_eq}
use jwt_service_app.Env.{Env}
use jwt_service_app.Routes.{Endpoint, configure_api}
use jwt_service_app.Routes.Endpoints.{Process, Extract, handle}
use jwt_service_app.ApiDoc.{api_doc}
use jwt_service_app.ApiDoc.Registered.{
  registered, IsDescribed, IsRegistered, configure_api-IsDescribed,
}
use jwt_service_app.ApiDoc.Statuses.{
  response_status, contains, documented_statuses, operation_of, missing,
}
use jwt_service_app.ApiDoc.Documented.{serve-documented}
use jwt_service_app.ApiDoc.Undocumented.{handle-undocumented}
use jwt_service_app.Tests.Samples.{no_variables, empty, store}
use jwt_service_app.Tests.TokenTests.{toy, keys, world}
use jwt_service_app.Tests.RouteTests.{
  site, access, without_secrets, request, extract, live, started_with, limit_address, limit_all,
}

configure_api-IsDescribed_example :
    All IsDescribed (registered (configure_api access limit_address limit_all []))
    × All (IsRegistered access (configure_api access limit_address limit_all [])) api_doc.paths
configure_api-IsDescribed_example = configure_api-IsDescribed access limit_address limit_all []

-- Without a TOTP code no refresh token is exchanged: 401.
serve-documented_example :
    contains
      (documented_statuses (operation_of Endpoint.refresh_token) ++ missing Endpoint.refresh_token)
      401
    ≡ true
unfolding configure_api jwt_service_app.Routes.Serve.chosen text_eq
    jwt_service_app.Routes.Serve.serve
serve-documented_example =
    serve-documented site toy no_variables store keys access extract live limit_address limit_all []
      (request (codes "POST") (codes "/tokens/refresh") without_secrets) (started_with empty 0)
      Endpoint.refresh_token 401 refl refl

abbrev one_host : Env
one_host name = if text_eq name (codes "TOKEN_ISSUER_ALLOWLIST") then some (codes "other") else none

abbrev with_token : Extract (Unit {0})
with_token = record extract { refresh_request = λ req. some (codes "i") }

abbrev at_start : Process toy one_host store keys
at_start = record { world = world empty; counted = [] }

handle-undocumented_example :
    (response_status
        (handle toy one_host store keys with_token
          (λ now s. (true, true, s))
          Endpoint.refresh_token
          (request (codes "POST") (codes "/tokens/refresh") without_secrets)
          at_start).0
      ≡ some 403)
    × (contains (documented_statuses (operation_of Endpoint.refresh_token)) 403 ≡ false)
unfolding text_eq jwt_service_app.Issuer.is_allowed jwt_service_app.Base.Text.split
    jwt_service_app.Base.Text.to_ascii_lowercase jwt_service_app.Base.Text.trim
handle-undocumented_example =
    handle-undocumented toy one_host store keys with_token (λ now s. (true, true, s))
      (request (codes "POST") (codes "/tokens/refresh") without_secrets) at_start (codes "i")
      (codes "h") refl refl refl
