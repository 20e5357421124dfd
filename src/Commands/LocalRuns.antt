-- ===== src/Commands/LocalRuns.antt =====
-- When a job that is run locally prints a result.
use ai_kodu_runner.Base.{
  ℕ, ◌-◌, ◌≤◌, ◌<◌, Text, text, Option, none, some, List, [], ◌∷◌, Result, ok, err, ◌≡◌, ◌≢◌, ◌⊎◌,
  inl, inr, refl, arith, Bool-cases, ok-injective, ◌==◌, ==_iff, trim, ap, sym, subst, ◌∙◌,
}
use ai_kodu_runner.Config.{RunnerConfig}
use ai_kodu_runner.Protocol.{JobSpec, JobResult}
use ai_kodu_runner.Base
use ai_kodu_runner.Policy.{join}
use ai_kodu_runner.Executor
use ai_kodu_runner.Executor.{factory, select_for, register, get, lookup, insert}
use ai_kodu_runner.Journal
use ai_kodu_runner.Journal.{Tables, Journal, Action, proceed, next_attempt}
use ai_kodu_runner.Journal.Jobs.{AttemptsAtMost, next_attempt_fresh}
use ai_kodu_runner.Commands.Defs.{
  Outside, lift, from_path, choose_config, allocate, execute, run_local,
}

-- Where a chain on the journal succeeds, its first link did.
>>=-eq-ok :
    {A : Type 0} {B : Type 0} (m : Action A) (f : A → Action B) (j end : Journal) (b : B)
    → Journal.◌>>=◌ m f j ≡ (ok b, end)
    → (a : A) × ((m j).0 ≡ ok a) × (f a (m j).1 ≡ (ok b, end))
unfolding Journal.◌>>=◌
>>=-eq-ok m f j end b h = step (m j).0 (m j).1 f end b h
  where
    step :
        {A : Type 0} {B : Type 0} (r : Result A) (j' : Journal) (f : A → Action B) (end : Journal)
        (b : B)
        → proceed r f j' ≡ (ok b, end)
        → (a : A) × (r ≡ ok a) × (f a j' ≡ (ok b, end))
    step (ok a) j' f end b h = (a, refl, h)
    step (err e) j' f end b h = cc

-- The runner's executors: the Docker executor under its name.
factory_lem :
    (docker : Result Executor.Executor) (executors : Executor.ExecutorFactory)
    → factory docker ≡ ok executors
    → (d : Executor.Executor) × (docker ≡ ok d) × (executors ≡ (text "docker", d) ∷ [])
unfolding factory register lookup insert text trim
factory_lem (ok d) executors h = (d, refl, ground (arith, h))
factory_lem (err e) executors h = cc

select_for_docker :
    (spec : JobSpec) (d selected : Executor.Executor)
    → select_for spec ((text "docker", d) ∷ []) ≡ ok selected
    → selected ≡ d
unfolding select_for get lookup
select_for_docker spec d selected h =
    let (e, got, rest) = Base.>>=-eq-ok (get spec.executor ((text "docker", d) ∷ [])) _ h in
    let (_, _, same) = Base.>>=-eq-ok _ (λ _. ok e) rest in ground (arith, got, same)

module _ (outside : Outside) where
  -- The attempt under which a job is run: its own, or a new one where that is zero.
  abbrev pub IsAllocated : (given spec : JobSpec) → Tables → Type 0
  IsAllocated given spec t =
      ((given.attempt ≢ 0) × (spec ≡ given))
      ⊎ ((given.attempt ≡ 0)
          × (spec ≡ record given { attempt = spec.attempt })
          × (0 < spec.attempt)
          × (spec.attempt ≤ 4294967295)
          × AttemptsAtMost given.id (spec.attempt - 1) t.jobs)

  fresh_lem :
      (config : RunnerConfig) (given spec : JobSpec) (j end : Journal)
      → Journal.◌>>=◌
          (lift (outside.open_journal (join config.work_dir (text "runner.db"))))
          (λ _.
            Journal.◌>>=◌
              (next_attempt given.id)
              (λ attempt. lift (ok (record given { attempt = attempt }))))
          j
        ≡ (ok spec, end)
      → (spec ≡ record given { attempt = spec.attempt })
        × (0 < spec.attempt)
        × (spec.attempt ≤ 4294967295)
        × AttemptsAtMost given.id (spec.attempt - 1) j.tables.jobs
        × (end.tables ≡ j.tables)
  fresh_lem config given spec j end h =
      let (_, _, rest) =
        >>=-eq-ok (lift (outside.open_journal (join config.work_dir (text "runner.db")))) _ j end
          spec h in
      let (n, next, last) = >>=-eq-ok (next_attempt given.id) _ j end spec rest in
      let (pos, small, above, kept) = next_attempt_fresh given.id j n next in
      let is_spec : record given { attempt = n } ≡ spec = ok-injective (ap (λ r. r.0) last) in
      let (a, b, c, d) =
        subst
          (λ (s : JobSpec).
            (s ≡ record given { attempt = s.attempt })
            × (0 < s.attempt)
            × (s.attempt ≤ 4294967295)
            × AttemptsAtMost given.id (s.attempt - 1) j.tables.jobs)
          is_spec (refl, pos, small, above) in
      (a, b, c, d, sym (ap (λ r. r.1.tables) last) ∙ kept)

  allocate_lem :
      (config : RunnerConfig) (given spec : JobSpec) (j end : Journal)
      → allocate outside config given j ≡ (ok spec, end)
      → IsAllocated given spec j.tables × (end.tables ≡ j.tables)
  unfolding allocate
  allocate_lem config given spec j end h = elim (Bool-cases (given.attempt == 0)) [
    | inl zero ↦
        let (same, pos, small, above, kept) = fresh_lem config given spec j end (rw zero at h) in
        (inr ((==_iff given.attempt 0).0 zero, same, pos, small, above), kept)
    | inr given_one ↦
        let same : (ok given, j) ≡ (ok spec, end) = rw given_one at h in
        (
          inl (ground (arith, given_one), sym (ok-injective (ap (λ r. r.0) same))),
          sym (ap (λ r. r.1.tables) same),
        )
  ]

  execute_lem :
      (config : RunnerConfig) (spec : JobSpec) (j end : Journal) (lines : List Text)
      → execute outside config spec j ≡ (ok lines, end)
      → (executor : Executor.Executor) × (result : JobResult) × (line : Text) × (outside.docker
            config
          ≡ ok executor)
        × (select_for spec ((text "docker", executor) ∷ []) ≡ ok executor)
        × (executor.run spec none ≡ ok result)
        × (outside.to_string_pretty result ≡ ok line)
        × (lines ≡ line ∷ [])
        × (end ≡ j)
  unfolding execute
  execute_lem config spec j end lines h =
      let (executors, built, h1) =
        >>=-eq-ok (lift (factory (outside.docker config))) _ j end lines h in
      let (d, made, only) = factory_lem (outside.docker config) executors built in
      let (executor, selected, h2) =
        >>=-eq-ok (lift (select_for spec executors)) _ j end lines h1 in
      let selected' : select_for spec ((text "docker", d) ∷ []) ≡ ok executor =
        subst (λ es. select_for spec es ≡ ok executor) only selected in
      let is_d = select_for_docker spec d executor selected' in
      let (result, ran, h3) = >>=-eq-ok (lift (executor.run spec none)) _ j end lines h2 in
      let (line, printed, h4) =
        >>=-eq-ok (lift (outside.to_string_pretty result)) _ j end lines h3 in
      (
        executor,
        result,
        line,
        made ∙ ap ok (sym is_d),
        subst (λ x. select_for spec ((text "docker", x) ∷ []) ≡ ok executor) (sym is_d) selected',
        ran,
        printed,
        sym (ok-injective (ap (λ r. r.0) h4)),
        sym (ap (λ r. r.1) h4),
      )

  -- Where a local run succeeds, it prints the result that the Docker executor gave: for the job of the
  -- file, under its own attempt or, where that is zero, under a new one above every attempt of the
  -- job in the journal, in an executor that offers what the job requires. The journal's tables are
  -- unchanged by the command's own steps.
  pub run_local_lem :
      (job : Text) (path : Option Text) (j end : Journal) (lines : List Text)
      → run_local outside job path j ≡ (ok lines, end)
      → (config : RunnerConfig) × (given spec : JobSpec) × (executor : Executor.Executor)
        × (result : JobResult) × (line : Text) × (choose_config outside path ≡ ok config)
        × (from_path outside job ≡ ok given)
        × IsAllocated given spec j.tables
        × (outside.docker config ≡ ok executor)
        × (select_for spec ((text "docker", executor) ∷ []) ≡ ok executor)
        × (executor.run spec none ≡ ok result)
        × (outside.to_string_pretty result ≡ ok line)
        × (lines ≡ line ∷ [])
        × (end.tables ≡ j.tables)
  unfolding run_local
  run_local_lem job path j end lines h =
      let (config, chosen, h1) = >>=-eq-ok (lift (choose_config outside path)) _ j end lines h in
      let (given, read, h2) = >>=-eq-ok (lift (from_path outside job)) _ j end lines h1 in
      let (spec, allocated, h3) = >>=-eq-ok (allocate outside config given) _ j end lines h2 in
      let after = (allocate outside config given j).1 in
      let (is_allocated, kept) =
        allocate_lem config given spec j after (λ i. (allocated i, after)) in
      let (executor, result, line, made, selected, ran, printed, same, last) =
        execute_lem config spec after end lines h3 in
      (
        config,
        given,
        spec,
        executor,
        result,
        line,
        chosen,
        read,
        is_allocated,
        made,
        selected,
        ran,
        printed,
        same,
        ap (λ (k : Journal). k.tables) last ∙ kept,
      )
