-- ===== src/Jwks/Manager.antt =====
-- key.rs: `KeyManager`. base64 and openssl are a parameter.
use jwt_service_app.Base.{
  ℕ, Bool, ◌||◌, Option, none, some, List, [], Result, ok, err, ok_or, and_then, if◌then◌else◌,
}
use jwt_service_app.Base.Text.{Text, codes, text_eq}
use jwt_service_app.Jwks.Service.{Jwk, JwkData, JwkError, Remote, Settings, Service, health_check}
use jwt_service_app.Jwks.Cache.{public_key, has_servable_snapshot}
use jwt_service_app.Jwks.PrivateKeys.{private_key}

pub data KeyError : Type 0 where
  not_found invalid_key unsupported : KeyError

pub data Curve : Type 0 where
  prime256v1 secp384r1 secp521r1 : Curve

pub data EdCurve : Type 0 where
  ed25519 ed448 : EdCurve

pub record OpenSsl : Type 1 where
  pub PrivateKey : Type 0
  pub PublicKey : Type 0
  pub BigNum : Type 0
  pub decode : Text → Option (List ℕ)
  pub private_key_from_pkcs8 : List ℕ → Option PrivateKey
  pub big_num : List ℕ → Option BigNum
  pub rsa_key : BigNum → BigNum → Option PublicKey
  pub ec_key : Curve → BigNum → BigNum → Option PublicKey
  pub raw_key : List ℕ → EdCurve → Option PublicKey

pub record KeyManager : Type 0 where
  pub current_key_id : Text
  pub service : Service

abbrev pub fresh_manager : Service → KeyManager
fresh_manager service = record { current_key_id = []; service = service }

module _ (o : OpenSsl) (r : Remote) (c : Settings) (algorithm : Text) where
  open o use {PrivateKey, PublicKey, BigNum}

  abbrev pub Action : Type 0 → Type 0
  Action A = KeyManager → Result KeyError A × KeyManager

  abbrev lookup_error : {A : Type 0} → Result JwkError A → Result KeyError A
  lookup_error (ok a) = ok a
  lookup_error (err e) = err not_found

  unfoldable pub check_jwks : Action (Unit {0})
  unfolding health_check
  check_jwks m =
      let (result, s) = health_check r m.service in (lookup_error result, record m { service = s })

  abbrev remember :
      KeyManager → Service → Result JwkError JwkData → Result KeyError JwkData × KeyManager
  remember m s (err e) = (err not_found, record m { service = s })
  remember m s (ok key) = (ok key, record { current_key_id = key.id; service = s })

  unfoldable pub get_jwk_data : Action JwkData
  unfolding private_key
  get_jwk_data m =
      let (result, s) = private_key r m.current_key_id algorithm m.service in remember m s result

  unfoldable pub get_jwk : Text → Action Jwk
  unfolding public_key
  get_jwk kid m =
      let (result, s) = public_key r c kid m.service in
      (lookup_error result, record m { service = s })

  unfoldable pub decode_private : JwkData → Result KeyError (JwkData × PrivateKey)
  decode_private jwk = and_then (ok_or invalid_key (o.decode jwk.private_key)) (λ bytes.
      and_then (ok_or invalid_key (o.private_key_from_pkcs8 bytes)) (λ key. ok (jwk, key)))

  unfoldable pub get_private_key : Action (JwkData × PrivateKey)
  unfolding get_jwk_data decode_private
  get_private_key m = let (result, m') = get_jwk_data m in (and_then result decode_private, m')

  unfoldable pub big_num_of : Option Text → Result KeyError BigNum
  big_num_of str = and_then (ok_or invalid_key str) (λ encoded.
      and_then (ok_or invalid_key (o.decode encoded))
        (λ bytes. ok_or invalid_key (o.big_num bytes)))

  unfoldable pub public_key_from_rs : Jwk → Result KeyError PublicKey
  unfolding big_num_of
  public_key_from_rs jwk =
      and_then (big_num_of jwk.n)
        (λ n. and_then (big_num_of jwk.e) (λ e. ok_or invalid_key (o.rsa_key n e)))

  abbrev pub curve_of : Text → Result KeyError Curve
  curve_of alg =
      if text_eq alg (codes "ES256")
      then ok prime256v1
      else if text_eq alg (codes "ES384")
      then ok secp384r1
      else if text_eq alg (codes "ES512")
      then ok secp521r1
      else err unsupported

  unfoldable pub public_key_from_es : Jwk → Result KeyError PublicKey
  unfolding big_num_of
  public_key_from_es jwk = and_then (curve_of jwk.alg) (λ curve.
      and_then (big_num_of jwk.x)
        (λ x. and_then (big_num_of jwk.y) (λ y. ok_or invalid_key (o.ec_key curve x y))))

  abbrev pub ed_curve_of : Option Text → Result KeyError EdCurve
  ed_curve_of none = err invalid_key
  ed_curve_of (some crv) =
      if text_eq crv (codes "Ed25519")
      then ok ed25519
      else if text_eq crv (codes "Ed448")
      then ok ed448
      else err unsupported

  unfoldable pub public_key_from_dsa : Jwk → Result KeyError PublicKey
  public_key_from_dsa jwk = and_then (ok_or invalid_key jwk.x) (λ encoded.
      and_then (ok_or invalid_key (o.decode encoded))
        (λ x. and_then (ed_curve_of jwk.crv) (λ id. ok_or invalid_key (o.raw_key x id))))

  abbrev pub is_rs : Text → Bool
  is_rs alg =
      text_eq alg (codes "RS256") || text_eq alg (codes "RS384") || text_eq alg (codes "RS512")

  abbrev pub is_es : Text → Bool
  is_es alg =
      text_eq alg (codes "ES256") || text_eq alg (codes "ES384") || text_eq alg (codes "ES512")

  unfoldable pub public_key_of : Jwk → Result KeyError PublicKey
  unfolding public_key_from_rs public_key_from_es public_key_from_dsa
  public_key_of jwk =
      if is_rs jwk.alg
      then public_key_from_rs jwk
      else if is_es jwk.alg
      then public_key_from_es jwk
      else if text_eq jwk.alg (codes "EdDSA")
      then public_key_from_dsa jwk
      else err unsupported

  unfoldable pub get_public_key : Text → Action PublicKey
  unfolding get_jwk public_key_of
  get_public_key kid m = let (result, m') = get_jwk kid m in (and_then result public_key_of, m')

  unfoldable pub has_servable_jwks_snapshot : KeyManager → Bool × KeyManager
  unfolding has_servable_snapshot
  has_servable_jwks_snapshot m =
      let (result, s) = has_servable_snapshot r c m.service in (result, record m { service = s })
