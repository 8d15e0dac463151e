-- ===== src/Auth/Middleware.antt =====
-- auth.rs: `AuthMiddleware::call`. The inner service is a function of the state of the store; the
-- answer `none` is the 401 that the middleware gives itself.
use jwt_service_app.Base.{
  ℕ, Bool, true, false, ◌&&◌, Option, none, some, List, [], ◌∷◌, Result, ok, err, if◌then◌else◌,
}
use jwt_service_app.Base.Text.{Text}
use jwt_service_app.Store.{JtiStore, JtiError}
use jwt_service_app.Auth.Hotp.{Hmac}
use jwt_service_app.Auth.Validators.{Headers}
use jwt_service_app.Auth.Config.{AuthLevel, totp, AuthConfig, authorize, totp_replay_claim, as_str}
use jwt_service_app.Counters.{Metric, auth_denied}

abbrev pub is_totp : AuthLevel → Bool
is_totp totp = true
is_totp _ = false

module _ (hmac : Hmac) (config : AuthConfig) (st : JtiStore) where
  -- The fingerprint to reserve: only at level 3, with the protection on, after a successful check.
  unfoldable pub replay_claim : AuthLevel → Headers → Bool → Option (Text × ℕ)
  replay_claim level headers authorized =
      if authorized && is_totp level && config.totp_replay_protection
      then totp_replay_claim hmac config headers
      else none

  -- A failing store lets the request through.
  abbrev pub not_replayed : Result JtiError Bool → Bool
  not_replayed (ok first) = first
  not_replayed (err e) = true

  -- Whether the request goes on, and the store after the reservation.
  unfoldable pub admit : AuthLevel → Headers → ℕ → st.State → Bool × st.State
  unfolding replay_claim authorize
  admit level headers now s =
      let authorized = authorize hmac config level headers now in
      elim (replay_claim level headers authorized) [
        | none ↦ (authorized, s)
        | some (fingerprint, ttl) ↦
            let (r, s') = st.claim_totp_code fingerprint ttl now s in (not_replayed r, s')
      ]

  -- The request reaches the inner service exactly if it is let through; a denial is counted.
  unfoldable pub call :
      {A : Type 0}
      → AuthLevel
      → Headers
      → ℕ
      → (st.State → A × st.State)
      → st.State
      → (Option A × List Metric) × st.State
  unfolding admit as_str
  call level headers now service s =
      let (authorized, s') = admit level headers now s in
      let (answer, s'') = service s' in
      if authorized then ((some answer, []), s'') else ((none, auth_denied (as_str level) ∷ []), s')
