-- ===== src/Auth/Replay.antt =====
-- auth.rs: the middleware on the Redis store. A TOTP code that was let through is not let through
-- again while its reservation lives.
use jwt_service_app.Base.{
  ℕ, ◌+◌, ◌<◌, ◌≡◌, refl, ap, ◌∙◌, Bool, true, false, Bool-cases, inl, inr, none, some, [], ◌∷◌, ok,
  arith, if◌then◌else◌,
}
use jwt_service_app.Base.Text.{Text}
use jwt_service_app.Store.{JtiStore, totp_code_key}
use jwt_service_app.Auth.Hotp.{Hmac}
use jwt_service_app.Auth.Validators.{Headers, code_fingerprint}
use jwt_service_app.Auth.Config.{AuthConfig, AuthLevel, totp, authorize, totp_replay_claim, as_str}
use jwt_service_app.Counters.{auth_denied}
use jwt_service_app.Auth.Middleware.{admit, call, not_replayed, replay_claim}
use jwt_service_app.Redis.{AudienceJson, RedisClient, redis_store, claim_totp_code}
use jwt_service_app.Redis.Server.{RedisServer}
use jwt_service_app.Redis.Rotation.{claim_totp_code-later}
use jwt_service_app.Redis.Refines.{keys}

module _ (hmac : Hmac) (config : AuthConfig) (st : JtiStore) where
  -- A request that the check of its level refuses is never let through, and the store is not asked.
  pub admit-refused :
      (level : AuthLevel) (headers : Headers) (now : ℕ) (s : st.State)
      → authorize hmac config level headers now ≡ false
      → admit hmac config st level headers now s ≡ (false, s)
  unfolding admit replay_claim
  admit-refused level headers now s refused =
      rw (refused, admit, replay_claim) (ap (λ b. (b, s)) refused)

  -- The inner service runs exactly for the requests that are let through: otherwise the answer is the
  -- refusal, and the store is the one that the reservation left.
  pub call-admitted :
      {A : Type 0} (level : AuthLevel) (headers : Headers) (now : ℕ)
      (service : st.State → A × st.State) (s s' : st.State) (b : Bool)
      → admit hmac config st level headers now s ≡ (b, s')
      → call hmac config st level headers now service s ≡ (
          if b
          then ((some (service s').0, []), (service s').1)
          else ((none, auth_denied (as_str level) ∷ []), s'))
  unfolding call
  call-admitted level headers now service s s' b h = rw (h, call) refl

  replay_claim-checked :
      (headers : Headers) (b : Bool)
      → config.totp_replay_protection ≡ true
      → b ≡ true
      → replay_claim hmac config st totp headers b ≡ totp_replay_claim hmac config headers
  unfolding replay_claim
  replay_claim-checked headers true on good = rw (on, replay_claim) refl
  replay_claim-checked headers false on good = absurd (cc good)

  -- What a request with a TOTP code that is checked and claimed gets.
  pub admit-claim :
      (headers : Headers) (now ttl : ℕ) (s : st.State) (fingerprint : Text)
      → config.totp_replay_protection ≡ true
      → totp_replay_claim hmac config headers ≡ some (fingerprint, ttl)
      → authorize hmac config totp headers now ≡ true
      → (admit hmac config st totp headers now s).0
          ≡ not_replayed hmac config st (st.claim_totp_code fingerprint ttl now s).0
        × ((admit hmac config st totp headers now s).1
            ≡ (st.claim_totp_code fingerprint ttl now s).1)
  unfolding admit
  admit-claim headers now ttl s fingerprint on claim good =
      let claimed : replay_claim hmac config st totp headers
            (authorize hmac config totp headers now)
          ≡ some (fingerprint, ttl) =
        replay_claim-checked headers _ on good ∙ claim in
      (rw (claimed, admit) refl, rw (claimed, admit) refl)

module _ (hmac : Hmac) (config : AuthConfig) (r : RedisServer) (json : AudienceJson) where
  -- Two requests bring the same value, or none, in the header of the TOTP code.
  same_claim :
      (headers headers' : Headers)
      → headers' config.totp.header ≡ headers config.totp.header
      → totp_replay_claim hmac config headers' ≡ totp_replay_claim hmac config headers
  unfolding totp_replay_claim code_fingerprint
  same_claim headers headers' same = rw (same, totp_replay_claim, code_fingerprint) refl

  -- With the replay protection on, of two requests with one TOTP code, whatever else they carry, where
  -- the first was let through by a reservation that the store answered, the second is refused in any
  -- state of the store in which the reservation is as the first request left it, as long as it lives,
  -- whether the check of the second succeeds or not, unless the store fails to answer it.
  pub admit-once :
      (headers headers' : Headers) (now later ttl : ℕ) (c c' : RedisClient r json)
      (fingerprint : Text) (answer : Bool)
      → config.totp_replay_protection ≡ true
      → headers' config.totp.header ≡ headers config.totp.header
      → totp_replay_claim hmac config headers ≡ some (fingerprint, ttl)
      → authorize hmac config totp headers now ≡ true
      → (claim_totp_code r json fingerprint ttl now c).0 ≡ ok true
      → keys r json c' (totp_code_key fingerprint)
        ≡ keys r json
            (admit hmac config (redis_store r json) totp headers now c).1
            (totp_code_key fingerprint)
      → (claim_totp_code r json fingerprint ttl later c').0 ≡ ok answer
      → later < now + ttl
      → (admit hmac config (redis_store r json) totp headers' later c').0 ≡ false
  admit-once headers headers' now later ttl c c' fingerprint answer on code claim good first kept
        second soon =
      let st : JtiStore = redis_store r json in
      let (_, left) = admit-claim hmac config st headers now ttl c fingerprint on claim good in
      let lost : answer ≡ false =
        claim_totp_code-later r json fingerprint ttl ttl now later c c' answer first
          (kept ∙ ap (λ s. keys r json s (totp_code_key fingerprint)) left) second
        ∙ ground (arith, soon) in
      let claim' : totp_replay_claim hmac config headers' ≡ some (fingerprint, ttl) =
        same_claim headers headers' code ∙ claim in
      elim (Bool-cases (authorize hmac config totp headers' later)) [
        | inl again ↦
            (admit-claim hmac config st headers' later ttl c' fingerprint on claim' again).0
            ∙ (ap (not_replayed hmac config st) second ∙ lost)
        | inr bad ↦ ap (λ x. x.0) (admit-refused hmac config st totp headers' later c' bad)
      ]
