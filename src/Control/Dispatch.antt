-- ===== src/Control/Dispatch.antt =====
-- The result of a leased job: admission, the choice of an executor, the run, and the classification
-- of what goes wrong. `now` is the clock's text.
use ai_kodu_runner.Base.{
  Text, text, ◌++◌, Bool, some, Result, ok, err, Error, bail, docker, DockerFailure, to_string,
  if◌then◌else◌,
}
use ai_kodu_runner.Protocol.{
  JobSpec, JobResult, Resources, FailureKind, FailureInfo, policy, infrastructure, cancellation,
  failed_from_failure,
}
use ai_kodu_runner.Executor.{Executor, ExecutorFactory, select_for}

-- `DockerFailure::failure_info`
unfoldable pub failure_info : DockerFailure → FailureInfo
failure_info f = record {
  kind = infrastructure;
  code = f.code;
  message = f.message ++ (text " (phase: " ++ (f.phase ++ text ")"));
}

unfoldable pub failed_result :
    (now : Text) → JobSpec → FailureKind → (code phase : Text) → Error → JobResult
failed_result now spec kind code phase error =
    record (failed_from_failure now spec
      (record { kind = kind; code = code; message = to_string error })) {
        failed_phase = some phase;
      }

unfoldable pub failed_executor_result : (now : Text) → JobSpec → Error → JobResult
unfolding failure_info
failed_executor_result now spec (docker failure) =
    record (failed_from_failure now spec (failure_info failure)) {
      failed_phase = some failure.phase;
    }
failed_executor_result now spec (bail message) =
    failed_result now spec infrastructure (text "executor_operation_failed") (text "execution")
      (bail message)

-- The run of the job: `cancelled` is the state of the token when the run has failed.
unfoldable pub run_outcome :
    (now : Text) → JobSpec → (cancelled : Bool) → Result JobResult → JobResult
run_outcome now spec cancelled (ok result) = result
run_outcome now spec cancelled (err error) =
    if cancelled
    then failed_result now spec cancellation (text "cancelled") (text "execution") error
    else failed_executor_result now spec error

unfoldable pub select_outcome :
    (now : Text) → JobSpec → (started cancelled : Bool) → Result Executor → JobResult
unfolding run_outcome
select_outcome now spec started cancelled (ok executor) =
    run_outcome now spec cancelled (executor.run spec (some started))
select_outcome now spec started cancelled (err error) =
    failed_result now spec policy (text "executor_admission_rejected") (text "admission") error

unfoldable pub factory_outcome :
    (now : Text) → JobSpec → (started cancelled : Bool) → Result ExecutorFactory → JobResult
unfolding select_outcome
factory_outcome now spec started cancelled (ok factory) =
    select_outcome now spec started cancelled (select_for spec factory)
factory_outcome now spec started cancelled (err error) =
    failed_result now spec infrastructure (text "executor_initialization_failed")
      (text "initialization") error

-- `started` is the state of the token when the run begins, `admission` the answer of `policy::validate_with_context`, `factory` that of
-- `executor::factory`.
unfoldable pub job_outcome :
    (now : Text)
    → JobSpec
    → (started cancelled : Bool) → (admission : Result Resources)
    → (factory : Result ExecutorFactory) → JobResult
unfolding factory_outcome
job_outcome now spec started cancelled (ok resources) factory =
    factory_outcome now spec started cancelled factory
job_outcome now spec started cancelled (err error) factory =
    failed_result now spec policy (text "job_admission_rejected") (text "admission") error
