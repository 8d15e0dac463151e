-- ===== src/Env.antt =====
-- The environment variables of the process, and the readers that the modules share in substance.
use jwt_service_app.Base.{
  ℕ, ◌^◌, ◌<◌, ◌≡◌, refl, Bool, true, false, ◌||◌, Option, none, some, [], arith, if◌then◌else◌,
}
use jwt_service_app.Base.Text.{
  Text, codes, text_eq, trim, to_ascii_lowercase, parse_uint, parse_uint-lt,
}

-- `env::var`: no value if the variable is not set or is no Unicode.
abbrev pub Env : Type 0
Env = Text → Option Text

abbrev pub unwrap_or {ℓ} : {A : Type ℓ} → A → Option A → A
unwrap_or d none = d
unwrap_or d (some a) = a

abbrev pub or_parse : ℕ → Option Text → Option ℕ
or_parse bound none = none
or_parse bound (some v) = parse_uint bound v

-- `env_u64` of auth.rs, jwt.rs and models/jwt.rs: the value is not trimmed.
unfoldable pub env_u64 : Env → Text → ℕ → ℕ
env_u64 env key default = unwrap_or default (or_parse (2 ^ 64) (env key))

abbrev pub or_parse_trimmed : ℕ → Option Text → Option ℕ
or_parse_trimmed bound none = none
or_parse_trimmed bound (some v) = parse_uint bound (trim v)

-- `env_u64` of rate_limit.rs and jwk.rs, `env_millis` of redis.rs: the value is trimmed.
unfoldable pub env_u64_trimmed : Env → Text → ℕ → ℕ
env_u64_trimmed env key default = unwrap_or default (or_parse_trimmed (2 ^ 64) (env key))

unfoldable pub env_u32 : Env → Text → ℕ → ℕ
env_u32 env key default = unwrap_or default (or_parse_trimmed (2 ^ 32) (env key))

-- `1`, `true`, `yes`, `on` and `0`, `false`, `no`, `off` or nothing; any other value is the default.
unfoldable pub bool_of : Bool → Text → Bool
bool_of default v =
    if text_eq v (codes "1")
      || text_eq v (codes "true")
      || text_eq v (codes "yes")
      || text_eq v (codes "on")
    then true
    else if text_eq v (codes "0")
        || text_eq v (codes "false")
        || text_eq v (codes "no")
        || text_eq v (codes "off")
        || text_eq v []
    then false
    else default

unfoldable pub env_bool : Env → Text → Bool → Bool
unfolding bool_of
env_bool env key default = elim (env key) [
  | none ↦ default
  | some v ↦ bool_of default (to_ascii_lowercase (trim v))
]

-- What a reader gives fits its type, if the default does.
pub env_u64-lt :
    (env : Env) (key : Text) (default : ℕ) → default < 2 ^ 64 → env_u64 env key default < 2 ^ 64
unfolding env_u64
env_u64-lt env key default h = go (env key)
  where
    go : (o : Option Text) → unwrap_or default (or_parse (2 ^ 64) o) < 2 ^ 64
    go none = h
    go (some v) = of_parse (parse_uint (2 ^ 64) v) (λ n e. parse_uint-lt (2 ^ 64) v e (omega arith))
      where
        of_parse :
            (p : Option ℕ) → ((n : ℕ) → p ≡ some n → n < 2 ^ 64) → unwrap_or default p < 2 ^ 64
        of_parse none bound = h
        of_parse (some n) bound = bound n refl
