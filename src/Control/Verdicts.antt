-- ===== src/Control/Verdicts.antt =====
-- How a leased job's result names what went wrong.
use ai_kodu_runner.Base.{
  Text, text, Bool, true, false, none, some, Result, ok, err, bail, docker, Error, ap, ◌≡◌, ◌⊎◌,
  inl, inr, refl, is_ok,
}
use ai_kodu_runner.Protocol.{
  JobSpec, JobResult, Resources, FailureKind, FailureInfo, policy, infrastructure, cancellation,
  failed_from_failure,
}
use ai_kodu_runner.Executor.{Executor, ExecutorFactory, select_for}
use ai_kodu_runner.Control.Dispatch.{
  failed_result, failed_executor_result, failure_info, run_outcome, select_outcome, factory_outcome,
  job_outcome,
}

-- A failure of this kind, under the job's own identifier and attempt.
pub record IsFailed (spec : JobSpec) (kind : FailureKind) (r : JobResult) : Type 0 where
  pub job_id : r.job_id ≡ spec.id
  pub attempt : r.attempt ≡ spec.attempt
  pub status : r.status ≡ text "failed"
  pub exit_code : r.exit_code ≡ none
  pub info : (i : FailureInfo) × (r.failure ≡ some i) × (i.kind ≡ kind)
  pub phase : (p : Text) × (r.failed_phase ≡ some p)

-- What a job must pass before it runs.
pub record IsRun (spec : JobSpec) (started : Bool) (admission : Result Resources)
    (factory : Result ExecutorFactory) (answer : Result JobResult) : Type 0 where
  pub executors : ExecutorFactory
  pub executor : Executor
  pub admitted : is_ok admission ≡ true
  pub built : factory ≡ ok executors
  pub selected : select_for spec executors ≡ ok executor
  pub ran : executor.run spec (some started) ≡ answer

-- Why a job has failed, by the kind of its failure.
pub data Cause (spec : JobSpec) (started cancelled : Bool) (admission : Result Resources)
    (factory : Result ExecutorFactory) : FailureKind → Type 0 where
  not_admitted : is_ok admission ≡ false → Cause spec started cancelled admission factory policy
  not_built : is_ok factory ≡ false → Cause spec started cancelled admission factory infrastructure
  not_selected :
      (executors : ExecutorFactory)
      → factory ≡ ok executors
      → is_ok (select_for spec executors) ≡ false
      → Cause spec started cancelled admission factory policy
  interrupted :
      (error : Error)
      → IsRun spec started admission factory (err error)
      → cancelled ≡ true
      → Cause spec started cancelled admission factory cancellation
  broken :
      (error : Error)
      → IsRun spec started admission factory (err error)
      → cancelled ≡ false
      → Cause spec started cancelled admission factory infrastructure

module _ (now : Text) (spec : JobSpec) where
  failed_result-IsFailed :
      (kind : FailureKind) (code phase : Text) (error : Error)
      → IsFailed spec kind (failed_result now spec kind code phase error)
  unfolding failed_result failed_from_failure
  failed_result-IsFailed kind code phase error = record {
    job_id = refl;
    attempt = refl;
    status = refl;
    exit_code = refl;
    info = (_, refl, refl);
    phase = (phase, refl);
  }

  failed_executor_result-IsFailed :
      (error : Error) → IsFailed spec infrastructure (failed_executor_result now spec error)
  unfolding failed_executor_result failed_from_failure failure_info
  failed_executor_result-IsFailed (docker f) = record {
    job_id = refl;
    attempt = refl;
    status = refl;
    exit_code = refl;
    info = (_, refl, refl);
    phase = (_, refl);
  }
  failed_executor_result-IsFailed (bail m) = failed_result-IsFailed infrastructure _ _ (bail m)

  ran_cases :
      (started cancelled : Bool) (resources : Resources) (factory : ExecutorFactory)
      (executor : Executor) (answer : Result JobResult)
      → select_for spec factory ≡ ok executor
      → executor.run spec (some started) ≡ answer
      → let r = run_outcome now spec cancelled answer in
        IsRun spec started (ok resources) (ok factory) (ok r)
        ⊎ ((kind : FailureKind) × IsFailed spec kind r
            × Cause spec started cancelled (ok resources) (ok factory) kind)
  unfolding run_outcome
  ran_cases started cancelled resources factory executor (ok r) chosen ran = inl (record {
    executors = factory;
    executor = executor;
    admitted = refl;
    built = refl;
    selected = chosen;
    ran = ran;
  })
  ran_cases started true resources factory executor (err e) chosen ran = inr (
    cancellation,
    failed_result-IsFailed cancellation _ _ e,
    interrupted e
        (record {
          executors = factory;
          executor = executor;
          admitted = refl;
          built = refl;
          selected = chosen;
          ran = ran;
        })
        refl,
  )
  ran_cases started false resources factory executor (err e) chosen ran = inr (
    infrastructure,
    failed_executor_result-IsFailed e,
    broken e
        (record {
          executors = factory;
          executor = executor;
          admitted = refl;
          built = refl;
          selected = chosen;
          ran = ran;
        })
        refl,
  )

  selected_cases :
      (started cancelled : Bool) (resources : Resources) (factory : ExecutorFactory)
      (choice : Result Executor)
      → select_for spec factory ≡ choice
      → let r = select_outcome now spec started cancelled choice in
        IsRun spec started (ok resources) (ok factory) (ok r)
        ⊎ ((kind : FailureKind) × IsFailed spec kind r
            × Cause spec started cancelled (ok resources) (ok factory) kind)
  unfolding select_outcome
  selected_cases started cancelled resources factory (ok executor) chosen =
      ran_cases started cancelled resources factory executor (executor.run spec (some started))
        chosen refl
  selected_cases started cancelled resources factory (err e) chosen =
      inr (policy, failed_result-IsFailed policy _ _ e, not_selected factory refl (ap is_ok chosen))

  -- A leased job's result is the executor's own, and then the job was admitted, the executors were
  -- built and that one was selected; or it is a failure under the job's identifier and attempt whose
  -- kind says why: policy where the job was not admitted or no executor selected, cancellation where
  -- the run failed after the token was cancelled, infrastructure where it failed otherwise or the
  -- executors could not be built.
  pub job_outcome_lem :
      (started cancelled : Bool) (admission : Result Resources) (factory : Result ExecutorFactory)
      → let r = job_outcome now spec started cancelled admission factory in
        IsRun spec started admission factory (ok r)
        ⊎ ((kind : FailureKind) × IsFailed spec kind r
            × Cause spec started cancelled admission factory kind)
  unfolding job_outcome factory_outcome
  job_outcome_lem started cancelled (err e) factory =
      inr (policy, failed_result-IsFailed policy _ _ e, not_admitted refl)
  job_outcome_lem started cancelled (ok resources) (err e) =
      inr (infrastructure, failed_result-IsFailed infrastructure _ _ e, not_built refl)
  job_outcome_lem started cancelled (ok resources) (ok factory) =
      selected_cases started cancelled resources factory (select_for spec factory) refl
