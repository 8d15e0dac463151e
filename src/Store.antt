-- ===== src/Store.antt =====
-- The store interface of models/jwt.rs (`JtiStore`, `JtiError`, `RefreshRecord`) and the keys that
-- its callers form. An operation takes the moment at which it runs and the state of the store, and
-- gives its result and the state after it.
pub mod Keys
use jwt_service_app.Base.{ℕ, Bool, Option, List, ◌++◌, Result}
use jwt_service_app.Base.Text.{Text, codes}

pub data JtiError : Type 0 where
  bad_connection wrong_operation : JtiError

pub record RefreshRecord : Type 0 where
  pub subject : Text
  pub audience : List Text
  pub family : Text

unfoldable pub totp_code_key : Text → Text
totp_code_key hash = codes "totp:used:" ++ hash

unfoldable pub subject_group : Text → Text
subject_group subject = codes "group:sub:" ++ subject

unfoldable pub family_group : Text → Text
family_group family = codes "group:family:" ++ family

unfoldable pub refresh_key : Text → Text
refresh_key id = codes "refresh:" ++ id

-- What an operation of the store does at a moment.
abbrev pub Op : Type 0 → Type 0 → Type 0
Op S A = ℕ → S → Result JtiError A × S

pub record JtiStore : Type 1 where
  pub State : Type 0
  pub ping : Op State (Unit {0})
  pub store_jti : Text → ℕ → Op State (Unit {0})
  pub check_jti : Text → Op State Bool
  pub delete_jti : Text → Op State (Unit {0})
  pub add_to_group : Text → Text → ℕ → Op State (Unit {0})
  pub revoke_group : Text → Op State ℕ
  pub store_refresh : Text → RefreshRecord → ℕ → Op State (Unit {0})
  pub get_refresh : Text → Op State (Option RefreshRecord)
  pub mark_refresh_used : Text → Op State Bool
  pub claim_totp_code : Text → ℕ → Op State Bool
