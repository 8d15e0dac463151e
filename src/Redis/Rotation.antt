-- ===== src/Redis/Rotation.antt =====
-- The one-time operations of `RedisClient`: refresh records and their mark, and TOTP codes.
use jwt_service_app.Base.{
  ℕ, ◌+◌, ◌<◌, ◌≡◌, refl, sym, ap, ◌∙◌, Bool, true, not, Bool-cases, Option, none, some, List, [],
  ltb, ok, inl, inr, if◌then◌else◌,
}
use jwt_service_app.Base.Text.{Text, codes, text_eq}
use jwt_service_app.Store.{RefreshRecord, refresh_key, totp_code_key}
use jwt_service_app.Redis.Keyspace.{live, is_live, set_nx_ex, hash_set_all, hgetall}
use jwt_service_app.Redis.Server.{RedisServer, exact}
use jwt_service_app.Redis.{
  AudienceJson, RedisClient, is_some, claim_totp_code, store_refresh, get_refresh, read_record,
}
use jwt_service_app.Redis.Refines.{
  keys, claim_totp_code-Refines, store_refresh-Refines, get_refresh-Refines, fields_of,
}
use jwt_service_app.Redis.Records.{
  set_nx_ex-live, mapped, hash_get-hash_set, refresh_effect-entry, hgetall_at, hash_set-nonempty,
}

module _ (r : RedisServer) (json : AudienceJson) where
  -- A claim that is answered succeeds exactly if the code is not reserved, and then reserves it.
  claimed :
      (code : Text) (ttl now later : ℕ) (c : RedisClient r json) (b : Bool)
      → (claim_totp_code r json code ttl now c).0 ≡ ok b
      → (b ≡ not (is_live (live now (keys r json c) (totp_code_key code))))
        × (b ≡ true
            → is_live (
                live later
                  (keys r json (claim_totp_code r json code ttl now c).1)
                  (totp_code_key code))
              ≡ ltb later (now + ttl))
  claimed code ttl now later c b h =
      let (o, done, won) =
        mapped (set_nx_ex (totp_code_key code) (codes "1") ttl) is_some now (keys r json c) _ b
          (claim_totp_code-Refines r json code ttl now c b h) in
      let (which, kept) =
        set_nx_ex-live (totp_code_key code) (codes "1") ttl now later (keys r json c) _ o done in
      (sym won ∙ which, λ new. kept (won ∙ new))

  -- Of two answered claims of one TOTP code, where the first succeeded, the second succeeds exactly
  -- if the lifetime of the first is over: within it there is one winner.
  pub claim_totp_code-once :
      (code : Text) (ttl ttl' now later : ℕ) (c : RedisClient r json) (b : Bool)
      → (claim_totp_code r json code ttl now c).0 ≡ ok true
      → (claim_totp_code r json code ttl' later (claim_totp_code r json code ttl now c).1).0 ≡ ok b
      → b ≡ not (ltb later (now + ttl))
  claim_totp_code-once code ttl ttl' now later c b first second =
      (claimed code ttl' later later _ b second).0
      ∙ ap not ((claimed code ttl now later c true first).1 refl)

  -- So for a second claim in any state in which the reservation is still as the first left it.
  pub claim_totp_code-later :
      (code : Text) (ttl ttl' now later : ℕ) (c c' : RedisClient r json) (b : Bool)
      → (claim_totp_code r json code ttl now c).0 ≡ ok true
      → keys r json c' (totp_code_key code)
        ≡ keys r json (claim_totp_code r json code ttl now c).1 (totp_code_key code)
      → (claim_totp_code r json code ttl' later c').0 ≡ ok b
      → b ≡ not (ltb later (now + ttl))
  claim_totp_code-later code ttl ttl' now later c c' b first same second =
      (claimed code ttl' later later c' b second).0
      ∙ ap not (rw same ((claimed code ttl now later c true first).1 refl))

  read_fields :
      (rec : RefreshRecord) (audience : Text) (h : List (Text × Text))
      → json.parse audience ≡ some rec.audience
      → read_record r json (hash_set_all (fields_of audience rec) h) ≡ some rec
  unfolding read_record hash_set_all text_eq
  read_fields rec audience h parsed = simp (hash_set-nonempty, hash_get-hash_set, parsed)

  nothing_read : read_record r json [] ≡ none
  unfolding read_record
  nothing_read = refl

  -- A stored refresh record is read back as it was stored until its lifetime is over, and not at
  -- all from then on.
  pub get_refresh-store_refresh :
      (id : Text) (rec : RefreshRecord) (ttl now later : ℕ) (c : RedisClient r json)
      (audience : Text) (o : Option RefreshRecord)
      → ttl < exact
      → json.print rec.audience ≡ some audience
      → json.parse audience ≡ some rec.audience
      → (store_refresh r json id rec ttl now c).0 ≡ ok tt
      → (get_refresh r json id later (store_refresh r json id rec ttl now c).1).0 ≡ ok o
      → o ≡ (if ltb later (now + ttl) then some rec else none)
  get_refresh-store_refresh id rec ttl now later c audience o small printed parsed stored read =
      let (h, entry) =
        refresh_effect-entry (refresh_key id) (fields_of audience rec) ttl now _ _
          (store_refresh-Refines r json id rec ttl audience small printed now c tt stored) in
      let (h', got, answer) =
        mapped (hgetall (refresh_key id)) (read_record r json) later _ _ o
          (get_refresh-Refines r json id later _ o read) in
      let now_there =
        hgetall_at (refresh_key id) later (now + ttl) (hash_set_all (fields_of audience rec) h) h' _
          _ entry got in
      elim (Bool-cases (ltb later (now + ttl))) [
        | inl lives ↦
            rw (lives, ← answer, rw lives at now_there) (read_fields rec audience h parsed)
        | inr over ↦ rw (over, ← answer, rw over at now_there) nothing_read
      ]
