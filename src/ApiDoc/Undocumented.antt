-- ===== src/ApiDoc/Undocumented.antt =====
-- handlers.rs: a status that the description does not name.
use jwt_service_app.Base.{◌≡◌, refl, false, some, err}
use jwt_service_app.Base.Text.{Text, codes}
use jwt_service_app.Env.{Env}
use jwt_service_app.Store.{JtiStore}
use jwt_service_app.Issuer.{is_allowed}
use jwt_service_app.Token.Platform.{Platform}
use jwt_service_app.Token.Signed.{KeySource}
use jwt_service_app.Handlers.{
  text, forbidden, refresh_token, issuer_for_issuance, host_header, error_response,
}
use jwt_service_app.Routes.{Endpoint}
use jwt_service_app.Routes.Endpoints.{Incoming, Extract, KeyProbe, Process, handle}
use jwt_service_app.ApiDoc.{refresh_token_path}
use jwt_service_app.ApiDoc.Statuses.{operation_of, documented_statuses, contains, response_status}

module _ (p : Platform) (env : Env) (st : JtiStore) (source : KeySource p) (x : Extract p.JsonValue)
    (probe : KeyProbe p env st source) where
  refused_host :
      (host : Text)
      → is_allowed env host ≡ false
      → issuer_for_issuance env (text host) ≡ err (forbidden (codes "Issuer not allowed"))
  unfolding issuer_for_issuance host_header
  refused_host host refused = rw refused refl

  -- The exchange of a refresh token for a host that the allowlist does not have is answered with 403,
  -- which the description of the operation does not name.
  pub handle-undocumented :
      (req : Incoming) (s : Process p env st source) (token host : Text)
      → x.refresh_request req ≡ some token
      → req.host ≡ text host
      → is_allowed env host ≡ false
      → (response_status (handle p env st source x probe Endpoint.refresh_token req s).0 ≡ some 403)
        × (contains (documented_statuses (operation_of Endpoint.refresh_token)) 403 ≡ false)
  unfolding handle refresh_token error_response refresh_token_path
  handle-undocumented req s token host body at' refused =
      (rw (body, at', refused_host host refused, refresh_token) refl, refl)
