-- ===== src/Server/Workers.antt =====
-- server.rs: the number of workers that the process starts with.
use jwt_service_app.Base.{
  ℕ, zero, suc, ◌+◌, ◌-◌, ◌*◌, ◌/◌, ◌^◌, ◌≤◌, ◌<◌, ◌≡◌, refl, ◌⊎◌, inl, inr, true, false, ◌||◌,
  Bool-cases, Option, none, some, ltb, arith, is_empty,
}
use native.Mathlib.Nat.{div-mul-le_self, lt-div-mul-add, mul-le-mul_right}
use jwt_service_app.Base.Text.{Text, codes, trim, text_eq, to_ascii_lowercase, parse_uint}
use jwt_service_app.Env.{Env}
use jwt_service_app.Server.{
  Cores, IsExact, Files, WorkersSource, explicit, quota, fallback, parse_workers, unless_zero,
  at_least, at_most, auto_workers, cpu_quota, available_parallelism, chosen, from_env,
}

module _ (f : Cores) where
  -- The files give no quota, or one that is not positive.
  abbrev pub NoQuota : Files → Type 0
  NoQuota files =
      (cpu_quota f files ≡ none)
      ⊎ ((cores : f.F64) × (cpu_quota f files ≡ some cores) × (f.is_positive cores ≡ false))

  -- How the number was chosen, and what is then known of it.
  pub data IsChosen (env : Env) (files : Files) (parallelism workers : ℕ) (source : WorkersSource)
      : Type 0 where
    set_by_hand :
        parse_workers (env (codes "SERVER_WORKERS")) ≡ some workers
        → 1 ≤ workers
        → source ≡ explicit
        → IsChosen env files parallelism workers source
    by_quota :
        parse_workers (env (codes "SERVER_WORKERS")) ≡ none
        → (cores : f.F64) → cpu_quota f files ≡ some cores
        → f.is_positive cores ≡ true
        → 1 ≤ workers
        → workers ≤ at_least 1 parallelism
        → source ≡ quota
        → IsChosen env files parallelism workers source
    by_ceiling :
        parse_workers (env (codes "SERVER_WORKERS")) ≡ none
        → NoQuota files
        → 1 ≤ workers
        → workers ≤ 4
        → workers ≤ at_least 1 parallelism
        → source ≡ fallback
        → IsChosen env files parallelism workers source

  unless_zero-some : (o : Option ℕ) (n : ℕ) → unless_zero o ≡ some n → 1 ≤ n
  unless_zero-some none n h = absurd (cc h)
  unless_zero-some (some m) n h = ground (arith, h)

  parse_workers-some : (o : Option Text) (n : ℕ) → parse_workers o ≡ some n → 1 ≤ n
  unfolding parse_workers
  parse_workers-some none n h = absurd (cc h)
  parse_workers-some (some v) n h =
      elim (Bool-cases
        (is_empty (trim v) || text_eq (to_ascii_lowercase (trim v)) (codes "auto"))) [
          | inl auto ↦ absurd (cc (rw (auto, parse_workers) at h))
          | inr number ↦
              unless_zero-some (parse_uint (2 ^ 64) (trim v)) n (rw (number, parse_workers) at h)
        ]

  chosen-IsChosen :
      (env : Env) (files : Files) (n : ℕ) (o : Option ℕ) (q : Option f.F64)
      → parse_workers (env (codes "SERVER_WORKERS")) ≡ o
      → cpu_quota f files ≡ q
      → IsChosen env files n (chosen f o (auto_workers f q n)).0 (chosen f o (auto_workers f q n)).1
  unfolding auto_workers
  chosen-IsChosen env files n (some w) q set limit =
      set_by_hand set (parse_workers-some _ w set) refl
  chosen-IsChosen env files n none none unset limit =
      by_ceiling unset (inl limit) (ground arith) (ground arith) (ground arith) refl
  chosen-IsChosen env files n none (some cores) unset limit =
      elim (Bool-cases (f.is_positive cores)) [
        | inl positive ↦
            rw (positive, auto_workers)
              (by_quota unset cores limit positive (ground arith) (ground arith) refl)
        | inr not_positive ↦
            rw (not_positive, auto_workers)
              (by_ceiling unset (inr (cores, limit, not_positive)) (ground arith) (ground arith)
                (ground arith) refl)
      ]

  -- However the environment, the files of the CPU quota and the host are, the process starts with at
  -- least one worker. Their number is the one that SERVER_WORKERS sets. Only where it sets none is it
  -- taken from the quota, or, only where there is no positive quota, from the host; it is at most the
  -- parallelism of the host then, and without a quota at most 4.
  pub from_env-IsChosen :
      (env : Env) (files : Files) (host : Option ℕ)
      → IsChosen env files
          (available_parallelism host)
          (from_env f env files host).workers
          (from_env f env files host).source
  unfolding from_env
  from_env-IsChosen env files host =
      chosen-IsChosen env files (available_parallelism host)
        (parse_workers (env (codes "SERVER_WORKERS"))) (cpu_quota f files) refl refl

  some_of : (q p c : ℕ) → 0 < q → q ≤ c * p → 1 ≤ c
  some_of q p zero q1 h = absurd (omega (arith, q1, h))
  some_of q p (suc c) q1 h = omega arith

  -- With the ceiling of q / p workers, or with fewer if the machine runs fewer at once.
  fewest :
      (q p n c w : ℕ)
      → 0 < q
      → 0 < p
      → c ≡ ((q + p) - 1) / p
      → w ≡ at_most n (at_least 1 c)
      → (q ≤ w * p ⊎ (w ≡ n)) × (w * p < q + p)
  fewest q p n c w q1 p1 is_c is_w =
      let below : c * p ≤ (q + p) - 1 = rw is_c (div-mul-le_self ((q + p) - 1) p) in
      let above : (q + p) - 1 < c * p + p = rw is_c (lt-div-mul-add {a = (q + p) - 1} {b = p} p1) in
      let enough : q ≤ c * p = omega (arith, above, q1) in
      let positive : 1 ≤ c = some_of q p c q1 enough in
      elim (Bool-cases (ltb n c)) [
        | inl fewer ↦ (
          inr (ground (arith, is_w, fewer, positive)),
          omega (
            arith,
            below,
            q1,
            p1,
            mul-le-mul_right {m = w} {n = c} p (ground (arith, is_w, fewer, positive)),
          ),
        )
        | inr all_of_it ↦
            let same : w ≡ c = ground (arith, is_w, all_of_it, positive) in
            (inl (rw same enough), rw same omega (arith, below, q1, p1))
      ]

  -- A CPU quota of `q` microseconds in each period of `p` makes the process start with the fewest
  -- workers that can use the whole quota, or with as many as the machine runs at once, if these are
  -- fewer. The numbers are positive and below 2 ^ 53, and SERVER_WORKERS sets no number.
  pub from_env-covers :
      (env : Env) (files : Files) (host : Option ℕ) (q p : ℕ)
      → IsExact f
      → parse_workers (env (codes "SERVER_WORKERS")) ≡ none
      → cpu_quota f files ≡ some (f.quotient q p)
      → 0 < q
      → q < 2 ^ 53
      → 0 < p
      → p < 2 ^ 53
      → (q ≤ (from_env f env files host).workers * p
          ⊎ ((from_env f env files host).workers ≡ at_least 1 (available_parallelism host)))
        × ((from_env f env files host).workers * p < q + p)
  unfolding from_env auto_workers
  from_env-covers env files host q p exact unset limit q1 q2 p1 p2 =
      fewest q p (at_least 1 (available_parallelism host)) (f.ceil (f.quotient q p)) _ q1 p1
        (exact.ceiling q p q1 q2 p1 p2)
        (rw (unset, from_env, limit, auto_workers, exact.positive q p q1 q2 p1 p2) refl)
