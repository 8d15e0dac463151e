-- ===== src/Redis/Revocation.antt =====
-- Bulk revocation of `RedisClient`: what `add_to_group` makes revocable, and what `revoke_group`
-- revokes.
use jwt_service_app.Base.{
  ℕ, ◌<◌, ◌≤◌, ◌≡◌, refl, ◌∙◌, Bool, false, none, some, ltb, ok, arith, inl, inr, if◌then◌else◌,
}
use jwt_service_app.Base.Text.{Text, text_eq, text_eq_refl}
use jwt_service_app.Redis.Keyspace.{live}
use jwt_service_app.Redis.Server.{RedisServer, exact}
use jwt_service_app.Redis.{AudienceJson, RedisClient, check_jti, add_to_group, revoke_group}
use jwt_service_app.Redis.Refines.{keys, add_to_group-Refines, revoke_group-Refines}
use jwt_service_app.Redis.Groups.{
  group_score, revoke_effect_lem, revoke_effect-none, contains-above,
}
use jwt_service_app.Redis.Activity.{check_jti-live}
use jwt_service_app.Redis.Members.{zset_of_score, add_effect-Added, above_unlisted, revoke_cases}

module _ (r : RedisServer) (json : AudienceJson) where
  -- After a successful `add_to_group`, the score of a member is its expiry time for the added token
  -- and the old score for every other, but only before the expiry of the token added last: from
  -- then on the whole group is gone.
  group_score-add_to_group :
      (group jti other : Text) (expires_at now later : ℕ) (c : RedisClient r json)
      → expires_at < exact
      → (add_to_group r json group jti expires_at now c).0 ≡ ok tt
      → group_score later
          (keys r json (add_to_group r json group jti expires_at now c).1)
          group
          other
        ≡ (if ltb later expires_at
            then (if text_eq jti other
                then some expires_at
                else group_score now (keys r json c) group other)
            else none)
  group_score-add_to_group group jti other expires_at now later c h added =
      let (l, entry, scores) =
        add_effect-Added group jti expires_at now (keys r json c) _ (live now (keys r json c) group)
          refl (add_to_group-Refines r json group jti expires_at h now c tt added) in
      ground (arith, entry group, scores other, text_eq_refl group)

  pub revoke_group_deletes :
      (group key : Text) (now n s : ℕ) (c : RedisClient r json)
      → now < exact
      → group_score now (keys r json c) group key ≡ some s
      → now < s
      → (revoke_group r json group now c).0 ≡ ok n
      → keys r json (revoke_group r json group now c).1 key ≡ none
  revoke_group_deletes group key now n s c small listed h revoked =
      let (l, d, here, scored) = zset_of_score (live now (keys r json c) group) key s listed in
      let (_, rest) =
        revoke_effect_lem group now n (keys r json c) _ l d here
          (revoke_group-Refines r json group now c n small revoked) in
      ground (arith, rest key, contains-above now s key l scored h)

  -- After a successful `revoke_group`, every member of the group whose expiry time is not yet past
  -- is inactive: no check that is answered finds it, then or later.
  pub revoke_group_kills :
      (group jti : Text) (now later n s : ℕ) (c : RedisClient r json) (b : Bool)
      → now < exact
      → group_score now (keys r json c) group jti ≡ some s
      → now < s
      → (revoke_group r json group now c).0 ≡ ok n
      → (check_jti r json jti later (revoke_group r json group now c).1).0 ≡ ok b
      → b ≡ false
  revoke_group_kills group jti now later n s c b small listed h revoked checked =
      check_jti-live r json jti later _ b checked
      ∙ ground (arith, revoke_group_deletes group jti now n s c small listed h revoked)

  -- `revoke_group` deletes no key but the group and its members: a key that is not the group's and
  -- has no score in it keeps its entry.
  pub revoke_group_others :
      (group key : Text) (now n : ℕ) (c : RedisClient r json)
      → now < exact
      → text_eq group key ≡ false
      → group_score now (keys r json c) group key ≡ none
      → (revoke_group r json group now c).0 ≡ ok n
      → keys r json (revoke_group r json group now c).1 key ≡ keys r json c key
  revoke_group_others group key now n c small ne unlisted revoked =
      elim (revoke_cases group now n _ _
        (revoke_group-Refines r json group now c n small revoked)) [
          | inl gone ↦
              (revoke_effect-none group now n _ _ gone
                  (revoke_group-Refines r json group now c n small revoked)).1
                key ne
          | inr (l, d, here) ↦
              let (_, rest) =
                revoke_effect_lem group now n (keys r json c) _ l d here
                  (revoke_group-Refines r json group now c n small revoked) in
              ground (arith, rest key, above_unlisted now key l (rw here at unlisted))
        ]

  -- Once the token added last has expired, a bulk revocation revokes nothing: it answers 0 and
  -- deletes no other key, whatever tokens the group held before and however long they live.
  pub revoke_group-add_to_group_expired :
      (group jti : Text) (expires_at now later n : ℕ) (c : RedisClient r json)
      → later < exact
      → expires_at ≤ later
      → (add_to_group r json group jti expires_at now c).0 ≡ ok tt
      → (revoke_group r json group later (add_to_group r json group jti expires_at now c).1).0
        ≡ ok n
      → (n ≡ 0)
        × ((key : Text)
            → text_eq group key ≡ false
            → keys r json
                (revoke_group r json group later
                  (add_to_group r json group jti expires_at now c).1).1
                key
              ≡ keys r json c key)
  revoke_group-add_to_group_expired group jti expires_at now later n c small expired added revoked =
      let (l, entry, _) =
        add_effect-Added group jti expires_at now (keys r json c) _ (live now (keys r json c) group)
          refl (add_to_group-Refines r json group jti expires_at (omega arith) now c tt added) in
      let (count, rest) =
        revoke_effect-none group later n _ _ (ground (arith, entry group, text_eq_refl group))
          (revoke_group-Refines r json group later _ n small revoked) in
      (count, λ key ne. rest key ne ∙ ground (arith, entry key))
