-- ===== src/Redis/Activity.antt =====
-- When a token identifier is active: what a check answers, and what it answers after `delete_jti`.
use jwt_service_app.Base.{ℕ, ◌≡◌, sym, ◌∙◌, Bool, false, some, [], ◌∷◌, ok, arith}
use jwt_service_app.Base.Text.{Text, text_eq_refl}
use jwt_service_app.Redis.Keyspace.{Keyspace, is_live, live, exists, del}
use jwt_service_app.Redis.Server.{RedisServer}
use jwt_service_app.Redis.{AudienceJson, RedisClient, check_jti, delete_jti}
use jwt_service_app.Redis.Refines.{keys, check_jti-Refines, delete_jti-Refines}
use jwt_service_app.Redis.Groups.{effect_parts, del_lem}

-- The key that DEL named is not live.
del-live :
    (k : Text) (now later : ℕ) (ks ks' : Keyspace)
    → del (k ∷ []) now ks ≡ some (tt, ks')
    → is_live (live later ks' k) ≡ false
del-live k now later ks ks' e =
    let (ks1, done, rest) = del_lem (k ∷ []) now ks in
    let (_, same) = effect_parts {a = tt} {ks = ks1} (sym done ∙ e) in
    ground (arith, same k, rest k, text_eq_refl k)

module _ (r : RedisServer) (json : AudienceJson) where
  -- What a check answers is whether the key is live.
  pub check_jti-live :
      (jti : Text) (now : ℕ) (c : RedisClient r json) (b : Bool)
      → (check_jti r json jti now c).0 ≡ ok b
      → b ≡ is_live (live now (keys r json c) jti)
  unfolding exists
  check_jti-live jti now c b h =
      sym
        (effect_parts {a = is_live (live now (keys r json c) jti)}
          (check_jti-Refines r json jti now c b h)).0

  -- After a successful `delete_jti`, every check that is answered says that the token is not active,
  -- whether it was before or not.
  pub check_jti-delete_jti :
      (jti : Text) (now later : ℕ) (c : RedisClient r json) (b : Bool)
      → (delete_jti r json jti now c).0 ≡ ok tt
      → (check_jti r json jti later (delete_jti r json jti now c).1).0 ≡ ok b
      → b ≡ false
  check_jti-delete_jti jti now later c b deleted checked =
      check_jti-live jti later (delete_jti r json jti now c).1 b checked
      ∙ del-live jti now later _ _ (delete_jti-Refines r json jti now c tt deleted)
