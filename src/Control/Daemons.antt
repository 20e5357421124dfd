-- ===== src/Control/Daemons.antt =====
-- How many jobs the daemon runs, how it ends, and that it is never stuck.
use ai_kodu_runner.Base.{
  ℕ, zero, suc, ◌+◌, ◌≤◌, List, [], ◌∷◌, length, length-append, ◌≡◌, ◌≢◌, refl, ap, sym, subst,
  arith, ◌⊎◌, inl, inr,
}
use ai_kodu_runner.Config.{RunnerConfig}
use ai_kodu_runner.Control.Daemon.{
  LeasedJob, Phase, acquiring, leasing, pausing, draining, ended, Daemon, concurrency_of, Step,
  acquire, shut_down_acquiring, shut_down_leasing, lease, no_lease, resume, shut_down_pausing,
  finish, join, Reachable, starts, steps,
}

-- The permit that the loop holds at the lease.
abbrev pub held : Phase → ℕ
held leasing = 1
held acquiring = 0
held pausing = 0
held draining = 0
held ended = 0

-- Every permit is free, held by the loop, or held by a job; and a daemon that has ended has no job.
pub record IsBalanced (config : RunnerConfig) (d : Daemon) : Type 0 where
  pub counted : d.permits + held d.phase + length d.jobs ≡ concurrency_of config
  pub none_left : d.phase ≡ ended → d.jobs ≡ []

-- The second state is come to from the first, by no step or by several.
pub data LeadsTo : Daemon → Daemon → Type 0 where
  rests : {d : Daemon} → LeadsTo d d
  onward : {d e f : Daemon} → Step d e → LeadsTo e f → LeadsTo d f

-- A state that is the end, with the same jobs started, is come to from this one.
abbrev pub ComesToEnd : Daemon → Type 0
ComesToEnd d = (e : Daemon) × (LeadsTo d e × (e.phase ≡ ended) × (e.started ≡ d.started))

-- The next state has the same jobs started, and is the end or drains with one job less.
abbrev pub Drains : Daemon → Daemon → Type 0
Drains d e =
    (e.started ≡ d.started)
    × ((e.phase ≡ ended) ⊎ ((e.phase ≡ draining) × (length e.jobs + 1 ≡ length d.jobs)))

Step-Drains : (d e : Daemon) → Step d e → d.phase ≡ draining → Drains d e
Step-Drains _ _ acquire h = cc
Step-Drains _ _ shut_down_acquiring h = cc
Step-Drains _ _ shut_down_leasing h = cc
Step-Drains _ _ (lease job) h = cc
Step-Drains _ _ no_lease h = cc
Step-Drains _ _ resume h = cc
Step-Drains _ _ shut_down_pausing h = cc
Step-Drains _ _ (finish before job after) h =
    (refl, inr (h, omega (arith, length-append before (job ∷ after), length-append before after)))
Step-Drains _ _ join h = (refl, inl refl)

module _ (config : RunnerConfig) where
  Step-IsBalanced : (d e : Daemon) → Step d e → IsBalanced config d → IsBalanced config e
  Step-IsBalanced _ _ acquire b = record { counted = omega (arith, b.counted); none_left = λ h. cc }
  Step-IsBalanced _ _ shut_down_acquiring b = record {
    counted = omega (arith, b.counted);
    none_left = λ h. cc;
  }
  Step-IsBalanced _ _ shut_down_leasing b = record {
    counted = omega (arith, b.counted);
    none_left = λ h. cc;
  }
  Step-IsBalanced _ _ (lease job) b = record {
    counted = omega (arith, b.counted);
    none_left = λ h. cc;
  }
  Step-IsBalanced _ _ no_lease b = record {
    counted = omega (arith, b.counted);
    none_left = λ h. cc;
  }
  Step-IsBalanced _ _ resume b = record { counted = omega (arith, b.counted); none_left = λ h. cc }
  Step-IsBalanced _ _ shut_down_pausing b = record {
    counted = omega (arith, b.counted);
    none_left = λ h. cc;
  }
  Step-IsBalanced _ _ (finish before job after) b = record {
    counted =
        omega (arith, b.counted, length-append before (job ∷ after), length-append before after);
    none_left =
        λ h. absurd (omega (arith, ap length (b.none_left h), length-append before (job ∷ after)));
  }
  Step-IsBalanced _ _ join b = record { counted = omega (arith, b.counted); none_left = λ h. refl }

  Reachable-IsBalanced : (d : Daemon) → Reachable config d → IsBalanced config d
  Reachable-IsBalanced _ starts = record { counted = omega arith; none_left = λ h. refl }
  Reachable-IsBalanced e (steps {d = d} r s) = Step-IsBalanced d e s (Reachable-IsBalanced d r)

  -- A next state that no shutdown leads to.
  abbrev pub HasNext : Daemon → Type 0
  HasNext d = (e : Daemon) × (Step d e × (e.phase ≡ draining → d.phase ≡ draining))

  next_of :
      (phase : Phase) (free : ℕ) (jobs started : List LeasedJob)
      → let d : Daemon = record { phase = phase; permits = free; jobs = jobs; started = started } in
        IsBalanced config d → phase ≢ ended → HasNext d
  next_of acquiring (suc free) jobs started b h = (_, (acquire, λ e. cc))
  next_of acquiring zero (job ∷ jobs) started b h = (_, (finish [] job jobs, λ e. e))
  next_of acquiring zero [] started b h = absurd (omega (arith, b.counted))
  next_of leasing free jobs started b h = (_, (no_lease, λ e. cc))
  next_of pausing free jobs started b h = (_, (resume, λ e. cc))
  next_of draining free [] started b h = (_, (join, λ e. cc))
  next_of draining free (job ∷ jobs) started b h = (_, (finish [] job jobs, λ e. e))
  next_of ended free jobs started b h = absurd (h refl)

  drained :
      (jobs started : List LeasedJob) (free : ℕ)
      → ComesToEnd (record { phase = draining; permits = free; jobs = jobs; started = started })
  drained [] started free = (_, (onward join rests, refl, refl))
  drained (job ∷ jobs) started free =
      let (e, (path, done, same)) = drained jobs started (free + 1) in
      (e, (onward (finish [] job jobs) path, done, same))

  drains : (d : Daemon) → d.phase ≡ draining → ComesToEnd d
  drains d h =
      subst
        (λ p.
          ComesToEnd
            (record { phase = p; permits = d.permits; jobs = d.jobs; started = d.started }))
        (sym h) (drained d.jobs d.started d.permits)

  -- In every state that the daemon comes to, however leases, failures, ends of jobs and the shutdown
  -- interleave, it runs at most as many jobs as the configured concurrency, which counts as at least
  -- one; it has ended only with no job left; if it has not ended it has a next step that is no
  -- shutdown; and once it drains, every step starts no job and ends the daemon or one of its jobs, and
  -- its end is come to from there with no other job started.
  pub daemon_lem :
      (d : Daemon)
      → Reachable config d
      → (length d.jobs ≤ concurrency_of config)
        × (d.phase ≡ ended → d.jobs ≡ [])
        × (d.phase ≢ ended → HasNext d)
        × (d.phase ≡ draining → ((e : Daemon) → Step d e → Drains d e) × ComesToEnd d)
  daemon_lem d r =
      let b = Reachable-IsBalanced d r in
      (
        omega (arith, b.counted),
        b.none_left,
        next_of d.phase d.permits d.jobs d.started b,
        λ h. (λ e s. Step-Drains d e s h, drains d h),
      )
