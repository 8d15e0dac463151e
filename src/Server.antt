-- ===== src/Server.antt =====
-- server.rs: the number of worker threads and the timeouts. The numbers of type `f64` are a parameter;
-- a file of cgroupfs is its content, if it can be read. Times are in milliseconds or in seconds.
pub mod Workers
use jwt_service_app.Base.{
  ℕ, zero, suc, ◌-◌, ◌+◌, ◌*◌, ◌/◌, ◌^◌, ◌<◌, ◌≡◌, Bool, true, false, ◌||◌, Option, none, some,
  List, [], ◌∷◌, is_empty, ltb, leb, ◌==◌, if◌then◌else◌,
}
use jwt_service_app.Base.Text.{
  Text, codes, text_eq, trim, to_ascii_lowercase, parse_uint, parse_nonempty, split_whitespace,
}
use jwt_service_app.Env.{Env}

-- What the source does with numbers of type `f64`: the quotient of two positive numbers, the test
-- `> 0.0`, and `ceil` with the cast to `usize`.
pub record Cores : Type 1 where
  pub F64 : Type 0
  pub quotient : ℕ → ℕ → F64
  pub is_positive : F64 → Bool
  pub ceil : F64 → ℕ

-- Integers below 2 ^ 53 are doubles, and their quotient, rounded, has the ceiling of the exact one.
pub record IsExact (f : Cores) : Type 0 where
  pub positive :
      (a b : ℕ) → 0 < a → a < 2 ^ 53 → 0 < b → b < 2 ^ 53 → f.is_positive (f.quotient a b) ≡ true
  pub ceiling :
      (a b : ℕ)
      → 0 < a
      → a < 2 ^ 53
      → 0 < b
      → b < 2 ^ 53
      → f.ceil (f.quotient a b) ≡ ((a + b) - 1) / b

pub data WorkersSource : Type 0 where
  explicit quota fallback : WorkersSource

pub record ServerConfig : Type 0 where
  pub workers : ℕ
  pub client_request_timeout : ℕ
  pub keep_alive : ℕ
  pub shutdown_timeout : ℕ
  pub source : WorkersSource

abbrev pub default_max_workers : ℕ
default_max_workers = 4

abbrev pub parsed_or : ℕ → Option ℕ → ℕ
parsed_or default none = default
parsed_or default (some n) = n

unfoldable pub parse_u64 : Option Text → ℕ → ℕ
parse_u64 none default = default
parse_u64 (some value) default =
    let raw = trim value in
    if is_empty raw then default else parsed_or default (parse_uint (2 ^ 64) raw)

unfoldable pub env_u64 : Env → Text → ℕ → ℕ
unfolding parse_u64
env_u64 env key default = parse_u64 (env key) default

abbrev pub unless_zero : Option ℕ → Option ℕ
unless_zero none = none
unless_zero (some n) = if n == 0 then none else some n

unfoldable pub parse_workers : Option Text → Option ℕ
parse_workers none = none
parse_workers (some value) =
    let raw = trim value in
    if is_empty raw || text_eq (to_ascii_lowercase raw) (codes "auto")
    then none
    else unless_zero (parse_uint (2 ^ 64) raw)

-- `usize::max`, `usize::min` and `usize::clamp`
abbrev pub at_least : ℕ → ℕ → ℕ
at_least lo n = if ltb n lo then lo else n

abbrev pub at_most : ℕ → ℕ → ℕ
at_most hi n = if ltb hi n then hi else n

-- An `i64`: a number, or one less than the opposite of a number.
pub data ℤ : Type 0 where
  pos negsuc : ℕ → ℤ

abbrev pub opposite : ℕ → ℤ
opposite zero = pos 0
opposite (suc n) = negsuc n

abbrev pub negated : Option ℕ → Option ℤ
negated none = none
negated (some n) = some (opposite n)

abbrev pub unsigned : Option ℕ → Option ℤ
unsigned none = none
unsigned (some n) = some (pos n)

-- `str::parse` into an `i64`
unfoldable pub parse_i64 : Text → Option ℤ
unfolding parse_nonempty
parse_i64 [] = none
parse_i64 (c ∷ s) =
    if c == b'-'
    then negated (parse_nonempty (2 ^ 63 + 1) s)
    else unsigned (parse_uint (2 ^ 63) (c ∷ s))

-- `std::thread::available_parallelism()`, if it succeeds.
unfoldable pub available_parallelism : Option ℕ → ℕ
available_parallelism none = 1
available_parallelism (some n) = n

-- `fs::read_to_string`: the content of a file, if it can be read.
abbrev pub Files : Type 0
Files = Text → Option Text

module _ (f : Cores) where
  abbrev pub quota_of : Option ℤ → Option ℤ → Option f.F64
  quota_of (some (pos q)) (some (pos p)) =
      if leb q 0 || leb p 0 then none else some (f.quotient q p)
  quota_of _ _ = none

  unfoldable pub parse_cfs_quota : Text → Text → Option f.F64
  unfolding parse_i64
  parse_cfs_quota quota_us period_us =
      quota_of (parse_i64 (trim quota_us)) (parse_i64 (trim period_us))

  abbrev pub cpu_max_of : List Text → Option f.F64
  unfolding parse_cfs_quota
  cpu_max_of [] = none
  cpu_max_of (quota_us ∷ []) = none
  cpu_max_of (quota_us ∷ (period_us ∷ parts)) =
      if text_eq quota_us (codes "max") then none else parse_cfs_quota quota_us period_us

  unfoldable pub parse_cpu_max : Text → Option f.F64
  unfolding split_whitespace parse_cfs_quota
  parse_cpu_max content = cpu_max_of (split_whitespace content)

  abbrev read_v2 : Option Text → Option f.F64
  read_v2 none = none
  read_v2 (some content) = parse_cpu_max content

  abbrev read_v1 : Option Text → Option Text → Option f.F64
  read_v1 (some quota_us) (some period_us) = parse_cfs_quota quota_us period_us
  read_v1 _ _ = none

  unfoldable pub cpu_quota : Files → Option f.F64
  unfolding parse_cpu_max parse_cfs_quota
  cpu_quota files = elim (read_v2 (files (codes "/sys/fs/cgroup/cpu.max"))) [
    | some cores ↦ some cores
    | none ↦
        read_v1 (files (codes "/sys/fs/cgroup/cpu/cpu.cfs_quota_us"))
          (files (codes "/sys/fs/cgroup/cpu/cpu.cfs_period_us"))
  ]

  abbrev by_fallback : ℕ → ℕ × WorkersSource
  by_fallback parallelism = (at_most default_max_workers parallelism, fallback)

  unfoldable pub auto_workers : Option f.F64 → ℕ → ℕ × WorkersSource
  auto_workers none parallelism = by_fallback (at_least 1 parallelism)
  auto_workers (some cores) parallelism =
      let parallelism' = at_least 1 parallelism in
      if f.is_positive cores
      then (at_most parallelism' (at_least 1 (f.ceil cores)), quota)
      else by_fallback parallelism'

  abbrev pub chosen : Option ℕ → ℕ × WorkersSource → ℕ × WorkersSource
  chosen (some n) auto = (n, explicit)
  chosen none auto = auto

  unfoldable pub from_env : Env → Files → Option ℕ → ServerConfig
  unfolding auto_workers cpu_quota available_parallelism parse_workers env_u64
  from_env env files host_parallelism =
      let (workers, source) =
        chosen (parse_workers (env (codes "SERVER_WORKERS")))
          (auto_workers (cpu_quota files) (available_parallelism host_parallelism)) in
      record {
        workers = workers;
        client_request_timeout = env_u64 env (codes "SERVER_CLIENT_REQUEST_TIMEOUT_MS") 5000;
        keep_alive = env_u64 env (codes "SERVER_KEEP_ALIVE_SECONDS") 5;
        shutdown_timeout = env_u64 env (codes "SERVER_SHUTDOWN_TIMEOUT_SECONDS") 25;
        source = source;
      }
