-- ===== src/Redis/Settings.antt =====
-- redis.rs: `env_millis` and `RedisClient::new`, the settings of the connection. Whether a URL is valid
-- is the crate's. Times are in milliseconds.
use jwt_service_app.Base.{
  ℕ, ◌^◌, Option, none, some, Bool, true, Bool-cases, inl, inr, ◌≡◌, subst, if◌then◌else◌,
}
use jwt_service_app.Base.Text.{Text, codes, trim, parse_uint}
use jwt_service_app.Env.{Env, unwrap_or}

abbrev pub default_response_timeout_ms : ℕ
default_response_timeout_ms = 1000

abbrev pub default_connect_timeout_ms : ℕ
default_connect_timeout_ms = 500

abbrev pub refresh_max_delay_ms : ℕ
refresh_max_delay_ms = 200

abbrev parsed_millis : ℕ → Option Text → ℕ
parsed_millis default none = default
parsed_millis default (some raw) = unwrap_or default (parse_uint (2 ^ 64) (trim raw))

unfoldable pub env_millis : Env → Text → ℕ → ℕ
env_millis env name default = parsed_millis default (env name)

-- `ConnectionManagerConfig` with what `new` sets.
pub record ConnectionManagerConfig : Type 0 where
  pub response_timeout : ℕ
  pub connection_timeout : ℕ
  pub number_of_retries : ℕ
  pub max_delay : ℕ

pub record ClientSettings : Type 0 where
  pub url : Text
  pub config : ConnectionManagerConfig

abbrev pub redis_url : Env → Text
redis_url env = unwrap_or (codes "redis://redis:6379") (env (codes "REDIS_URL"))

unfoldable pub settings_of : Env → ClientSettings
unfolding env_millis
settings_of env = record {
  url = redis_url env;
  config = record {
    response_timeout =
        env_millis env (codes "REDIS_RESPONSE_TIMEOUT_MS") default_response_timeout_ms;
    connection_timeout =
        env_millis env (codes "REDIS_CONNECT_TIMEOUT_MS") default_connect_timeout_ms;
    number_of_retries = 1;
    max_delay = refresh_max_delay_ms;
  };
}

-- No connection is opened; `none` is the error of the URL.
unfoldable pub new : (Text → Bool) → Env → Option ClientSettings
unfolding settings_of
new valid_redis_url env = if valid_redis_url (redis_url env) then some (settings_of env) else none

pub new-valid :
    (valid_redis_url : Text → Bool) (env : Env) (s : ClientSettings)
    → new valid_redis_url env ≡ some s
    → valid_redis_url s.url ≡ true
unfolding new settings_of
new-valid valid_redis_url env s h = elim (Bool-cases (valid_redis_url (redis_url env))) [
  | inl good ↦
      let same : settings_of env ≡ s = cc (rw (good, new) at h) in
      subst (λ (c : ClientSettings). valid_redis_url c.url ≡ true) same good
  | inr bad ↦ absurd (cc (rw (bad, new) at h))
]
