-- ===== src/Policy/Clamp.antt =====
-- What clamping does to the resources that a job asks for.
use ai_kodu_runner.Base.{◌≤◌, ℤ, pos, ◌≤ℤ◌, min_ℤ, max_ℤ, max, arith}
use ai_kodu_runner.Protocol.{F64, Resources}
use ai_kodu_runner.Config.{RunnerConfig}
use ai_kodu_runner.Policy.Defs.{clamp, smallest_cpu, min_f64, max_f64}

-- `x.min(limit).max(least)` is between `least` and the greater of `limit` and `least`.
clamped_bounds :
    (x limit least : ℤ)
    → (least ≤ℤ max_ℤ (min_ℤ x limit) least) × (max_ℤ (min_ℤ x limit) least ≤ℤ max_ℤ limit least)
clamped_bounds x limit least = ground arith

-- What is a number between the bounds; a limit that is not a number leaves only the lower one.
abbrev pub IsCpuWithin : F64 → F64 → Type 0
IsCpuWithin limit F64.nan = ⊥
IsCpuWithin F64.nan (F64.num x) = smallest_cpu ≤ℤ x
IsCpuWithin (F64.num m) (F64.num x) = (smallest_cpu ≤ℤ x) × (x ≤ℤ max_ℤ m smallest_cpu)

cpu_within : (x limit : F64) → IsCpuWithin limit (max_f64 (min_f64 x limit) (F64.num smallest_cpu))
cpu_within F64.nan F64.nan = ground arith
cpu_within F64.nan (F64.num m) = ground arith
cpu_within (F64.num x) F64.nan = ground arith
cpu_within (F64.num x) (F64.num m) = clamped_bounds x m smallest_cpu

-- The resources that a job is given are within the limits or the least amounts: a cpu count that is a
-- number of at least 0.01, 16 MiB or more, one process or more, one second or more, and none above
-- the greater of the configured limit and that least amount.
pub clamp_bounds :
    (r : Resources) (c : RunnerConfig)
    → IsCpuWithin c.limits.max_cpu (clamp r c).cpu
      × ((pos 16 ≤ℤ (clamp r c).memory_mb)
          × ((clamp r c).memory_mb ≤ℤ max_ℤ c.limits.max_memory_mb (pos 16)))
      × ((pos 1 ≤ℤ (clamp r c).pids) × ((clamp r c).pids ≤ℤ max_ℤ c.limits.max_pids (pos 1)))
      × ((1 ≤ (clamp r c).timeout_seconds)
          × ((clamp r c).timeout_seconds ≤ max c.limits.max_timeout_seconds 1))
unfolding clamp
clamp_bounds r c = (
  cpu_within r.cpu c.limits.max_cpu,
  clamped_bounds r.memory_mb c.limits.max_memory_mb (pos 16),
  clamped_bounds r.pids c.limits.max_pids (pos 1),
  (omega arith, omega arith),
)
