-- ===== src/Tests/ServerTests.antt =====
-- Runs of server.rs.
use jwt_service_app.Base.{
  ℕ, ◌+◌, ◌-◌, ◌*◌, ◌/◌, ◌≤◌, ◌<◌, ◌≡◌, refl, ◌⊎◌, Bool, true, false, Option, none, some, List, [],
  ◌∷◌, ltb, arith, if◌then◌else◌,
}
use jwt_service_app.Base.Text.{Text, codes, text_eq}
use jwt_service_app.Env.{Env}
use jwt_service_app.Server.{
  Cores, IsExact, Files, parse_workers, parse_u64, parse_cpu_max, cpu_quota, explicit, from_env,
}
use jwt_service_app.Server.Workers.{IsChosen, from_env-IsChosen, from_env-covers}
use jwt_service_app.Tests.Samples.{no_variables}

-- Quotients kept as pairs.
abbrev pub exact_pairs : Cores
exact_pairs = record {
  F64 = ℕ × ℕ;
  quotient = λ a b. (a, b);
  is_positive = λ x. ltb 0 x.0;
  ceil = λ x. ((x.0 + x.1) - 1) / x.1;
}

exact_pairs-IsExact : IsExact exact_pairs
exact_pairs-IsExact = record {
  positive = λ a b a1 a2 b1 b2. ground (arith, a1);
  ceiling = λ a b a1 a2 b1 b2. refl;
}

abbrev pub files : Files
files path =
    if text_eq path (codes "/sys/fs/cgroup/cpu.max") then some (codes "250000 100000") else none

abbrev workers_set : Env
workers_set name = if text_eq name (codes "SERVER_WORKERS") then some (codes " 16 ") else none

parse_workers_test : parse_workers (some (codes " 16 ")) ≡ some 16
unfolding parse_workers jwt_service_app.Base.Text.trim text_eq
    jwt_service_app.Base.Text.to_ascii_lowercase jwt_service_app.Base.Text.parse_uint
parse_workers_test = refl

parse_workers_auto : parse_workers (some (codes "AUTO")) ≡ none
unfolding parse_workers jwt_service_app.Base.Text.trim text_eq
    jwt_service_app.Base.Text.to_ascii_lowercase
parse_workers_auto = refl

parse_workers_garbage : parse_workers (some (codes "two of them")) ≡ none
unfolding parse_workers jwt_service_app.Base.Text.trim text_eq
    jwt_service_app.Base.Text.to_ascii_lowercase jwt_service_app.Base.Text.parse_uint
parse_workers_garbage = refl

parse_u64_negative : parse_u64 (some (codes "-5")) 25 ≡ 25
unfolding parse_u64 jwt_service_app.Base.Text.trim jwt_service_app.Base.Text.parse_uint
parse_u64_negative = refl

parse_u64_none : parse_u64 (some (codes "  ")) 25 ≡ 25
unfolding parse_u64 jwt_service_app.Base.Text.trim
parse_u64_none = refl

parse_cpu_max_quota : parse_cpu_max exact_pairs (codes "150000 100000") ≡ some (150000, 100000)
unfolding parse_cpu_max text_eq jwt_service_app.Base.Text.trim jwt_service_app.Base.Text.parse_uint
parse_cpu_max_quota = refl

parse_cpu_max_unlimited : parse_cpu_max exact_pairs (codes "max 100000") ≡ none
unfolding parse_cpu_max text_eq
parse_cpu_max_unlimited = refl

parse_cpu_max_negative : parse_cpu_max exact_pairs (codes "-1 100000") ≡ none
unfolding parse_cpu_max text_eq jwt_service_app.Base.Text.trim
parse_cpu_max_negative = refl

from_env-IsChosen_example : IsChosen exact_pairs workers_set files 64 16 explicit
unfolding jwt_service_app.Server.available_parallelism from_env text_eq
    jwt_service_app.Base.Text.trim jwt_service_app.Base.Text.to_ascii_lowercase
    jwt_service_app.Base.Text.parse_uint
from_env-IsChosen_example = from_env-IsChosen exact_pairs workers_set files (some 64)

from_env-covers_example : (250000 ≤ 300000 ⊎ ◌≡◌ {A = ℕ} 3 64) × (300000 < 350000)
unfolding parse_workers cpu_quota text_eq jwt_service_app.Base.Text.trim
    jwt_service_app.Base.Text.parse_uint from_env jwt_service_app.Server.available_parallelism
from_env-covers_example =
    from_env-covers exact_pairs no_variables files (some 64) 250000 100000 exact_pairs-IsExact refl
      refl (omega arith) (omega arith) (omega arith) (omega arith)
