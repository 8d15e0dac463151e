-- ===== src/Jwks/PrivateKeys.antt =====
-- jwk.rs: `private_key`, `create_key` and `get_key`.
use jwt_service_app.Base.{
  ℕ, Bool, ◌&&◌, none, some, is_empty, ltb, leb, ◌==◌, Result, ok, err, if◌then◌else◌,
}
use jwt_service_app.Base.Text.{Text, codes, text_eq}
use jwt_service_app.Jwks.Service.{
  JwkData, JwkError, bad_connection, bad_response, not_found, Reply, unreachable, response, Remote,
  Call, ◌>>=◌, pure, request, body_of,
}

-- The key service takes the name of the curve.
abbrev pub service_alg : Text → Text
service_alg alg = if text_eq alg (codes "EdDSA") then codes "Ed25519" else alg

-- `StatusCode::is_success`
abbrev pub is_success : ℕ → Bool
is_success status = leb 200 status && ltb status 300

unfoldable pub key_of_reply : Reply JwkData → Result JwkError JwkData
key_of_reply unreachable = err bad_connection
key_of_reply (response status body) =
    if status == 404
    then err not_found
    else if is_success status
    then elim body [ none ↦ err bad_response | some key ↦ ok key ]
    else err bad_response

module _ (r : Remote) where
  unfoldable pub create_key : Text → Call (Result JwkError JwkData)
  create_key alg = do reply ← request r (r.new_key (service_alg alg)); pure (body_of r reply)

  unfoldable pub get_key : Text → Call (Result JwkError JwkData)
  unfolding key_of_reply
  get_key id = do reply ← request r (r.read_key id); pure (key_of_reply reply)

  abbrev pub or_create : Text → Result JwkError JwkData → Call (Result JwkError JwkData)
  or_create alg (err not_found) = create_key alg
  or_create alg result = pure result

  unfoldable pub private_key : Text → Text → Call (Result JwkError JwkData)
  unfolding create_key get_key
  private_key id alg =
      if is_empty id then create_key alg else (do found ← get_key id; or_create alg found)
