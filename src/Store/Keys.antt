-- ===== src/Store/Keys.antt =====
-- The keys of the store do not clash: each family of keys is one-to-one, and two families share no
-- key.
use jwt_service_app.Base.{◌≡◌, ◌≢◌, refl}
use jwt_service_app.Base.Text.{Text, text_eq, ne_of_text_eq}
use jwt_service_app.Store.{totp_code_key, subject_group, family_group, refresh_key}

pub subject_group-injective : (a b : Text) → subject_group a ≡ subject_group b → a ≡ b
unfolding subject_group
subject_group-injective a b h = cc

pub family_group-injective : (a b : Text) → family_group a ≡ family_group b → a ≡ b
unfolding family_group
family_group-injective a b h = cc

pub refresh_key-injective : (a b : Text) → refresh_key a ≡ refresh_key b → a ≡ b
unfolding refresh_key
refresh_key-injective a b h = cc

pub totp_code_key-injective : (a b : Text) → totp_code_key a ≡ totp_code_key b → a ≡ b
unfolding totp_code_key
totp_code_key-injective a b h = cc

pub subject_group-ne-family_group : (a b : Text) → subject_group a ≢ family_group b
unfolding subject_group family_group text_eq
subject_group-ne-family_group a b = ne_of_text_eq _ _ refl

pub family_group-ne-refresh_key : (a b : Text) → family_group a ≢ refresh_key b
unfolding family_group refresh_key text_eq
family_group-ne-refresh_key a b = ne_of_text_eq _ _ refl
