-- ===== src/Issuer.antt =====
-- issuer.rs: the allowlist of issuers.
pub mod Laws
use jwt_service_app.Base.{
  Bool, ◌||◌, not, Option, none, some, List, [], ◌∷◌, any, is_empty, map, if◌then◌else◌,
}
use jwt_service_app.Base.Text.{Text, codes, text_eq, trim, split, to_ascii_lowercase}
use jwt_service_app.Env.{Env, unwrap_or}

abbrev pub keep_nonempty : List Text → List Text
keep_nonempty [] = []
keep_nonempty (s ∷ l) = if is_empty s then keep_nonempty l else s ∷ keep_nonempty l

unfoldable pub parse : Text → List Text
parse raw = keep_nonempty (map (λ s. to_ascii_lowercase (trim s)) (split b',' raw))

unfoldable pub allowed_by : List Text → Text → Bool
allowed_by allowed host = is_empty allowed || any (λ a. text_eq a (to_ascii_lowercase host)) allowed

unfoldable pub allowlist : Env → List Text
unfolding parse
allowlist env = parse (unwrap_or [] (env (codes "TOKEN_ISSUER_ALLOWLIST")))

unfoldable pub is_allowed : Env → Text → Bool
unfolding allowlist allowed_by
is_allowed env host = allowed_by (allowlist env) host
