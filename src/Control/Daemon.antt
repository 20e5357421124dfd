-- ===== src/Control/Daemon.antt =====
-- The lease loop of `run_daemon`, as steps: its turns interleave with the ends of the jobs.
use ai_kodu_runner.Base.{ℕ, suc, ◌+◌, max, Text, none, some, List, [], ◌∷◌, ◌++◌}
use ai_kodu_runner.Config.{RunnerConfig}
use ai_kodu_runner.Protocol.{JobSpec}

pub record LeasedJob : Type 0 where
  pub lease_id : Text
  pub spec : JobSpec

-- Where the loop stands: at the semaphore, at the lease with a permit, in the pause after no lease or
-- a failed one, at the jobs that are left, or at the end.
pub data Phase : Type 0 where
  acquiring leasing pausing draining ended : Phase

-- `permits` are the semaphore's free ones; `started` is every job that was spawned, the last first.
pub record Daemon : Type 0 where
  pub phase : Phase
  pub permits : ℕ
  pub jobs : List LeasedJob
  pub started : List LeasedJob

-- `config.concurrency.unwrap_or(1).max(1)`
abbrev pub concurrency_of : RunnerConfig → ℕ
concurrency_of config = max (elim config.concurrency [ none ↦ 1 | some n ↦ n ]) 1

abbrev pub first_daemon : RunnerConfig → Daemon
first_daemon config = record {
  phase = acquiring;
  permits = concurrency_of config;
  jobs = [];
  started = [];
}

-- The shutdown ends the loop at the semaphore, at the lease, which gives its permit back, and in the
-- pause. A job that ends, by a failure or a panic as well, gives its permit back.
pub data Step : Daemon → Daemon → Type 0 where
  acquire :
      {free : ℕ} {jobs started : List LeasedJob}
      → Step
          (record { phase = acquiring; permits = suc free; jobs = jobs; started = started })
          (record { phase = leasing; permits = free; jobs = jobs; started = started })
  shut_down_acquiring :
      {free : ℕ} {jobs started : List LeasedJob}
      → Step
          (record { phase = acquiring; permits = free; jobs = jobs; started = started })
          (record { phase = draining; permits = free; jobs = jobs; started = started })
  shut_down_leasing :
      {free : ℕ} {jobs started : List LeasedJob}
      → Step
          (record { phase = leasing; permits = free; jobs = jobs; started = started })
          (record { phase = draining; permits = free + 1; jobs = jobs; started = started })
  lease :
      {free : ℕ} {jobs started : List LeasedJob}
      → (job : LeasedJob)
      → Step
          (record { phase = leasing; permits = free; jobs = jobs; started = started })
          (record { phase = acquiring; permits = free; jobs = job ∷ jobs; started = job ∷ started })
  no_lease :
      {free : ℕ} {jobs started : List LeasedJob}
      → Step
          (record { phase = leasing; permits = free; jobs = jobs; started = started })
          (record { phase = pausing; permits = free + 1; jobs = jobs; started = started })
  resume :
      {free : ℕ} {jobs started : List LeasedJob}
      → Step
          (record { phase = pausing; permits = free; jobs = jobs; started = started })
          (record { phase = acquiring; permits = free; jobs = jobs; started = started })
  shut_down_pausing :
      {free : ℕ} {jobs started : List LeasedJob}
      → Step
          (record { phase = pausing; permits = free; jobs = jobs; started = started })
          (record { phase = draining; permits = free; jobs = jobs; started = started })
  finish :
      {phase : Phase} {free : ℕ} {started : List LeasedJob}
      → (before : List LeasedJob) → (job : LeasedJob) → (after : List LeasedJob)
      → Step
          (record {
            phase = phase;
            permits = free;
            jobs = before ++ job ∷ after;
            started = started;
          })
          (record { phase = phase; permits = free + 1; jobs = before ++ after; started = started })
  join :
      {free : ℕ} {started : List LeasedJob}
      → Step
          (record { phase = draining; permits = free; jobs = []; started = started })
          (record { phase = ended; permits = free; jobs = []; started = started })

-- The states that the daemon comes to.
pub data Reachable (config : RunnerConfig) : Daemon → Type 0 where
  starts : Reachable config (first_daemon config)
  steps : {d e : Daemon} → Reachable config d → Step d e → Reachable config e
