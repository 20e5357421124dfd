-- ===== src/Control/Survives.antt =====
-- What becomes of the result of a leased job, also after a restart.
use ai_kodu_runner.Base.{
  ℕ, Text, text_eq_iff, Bool, true, false, not, ◌&&◌, Option, none, some, any, Result, ok, ◌≡◌,
  refl, arith, ap, ◌∙◌,
}
use ai_kodu_runner.Protocol.{JobResult}
use ai_kodu_runner.Journal.{to_pending, Tables, Journal, calm}
use ai_kodu_runner.Journal.Outbox.{HasUniqueRows, find_row}
use ai_kodu_runner.Journal.Outbox.{is_pending, pending_rows, pending_rows_eq}
use ai_kodu_runner.Journal.Pending.{any-pending_rows}
use ai_kodu_runner.Config.{RunnerConfig}
use ai_kodu_runner.Executor.{Executor}
use ai_kodu_runner.Control.Logs.{upload_logs}
use ai_kodu_runner.Control.Completion.{
  completion_idempotency_key, report, replay_pending_completions,
}
use ai_kodu_runner.Control.Kept.{HoldsRow, noted, report-IsKept}
use ai_kodu_runner.Control.Daemon.{LeasedJob}
use ai_kodu_runner.Control.Leased.{Course, log_loss, leased_outcome, run_leased_job}
use ai_kodu_runner.Control.Replays.{is_taken, replay_lem}
use ai_kodu_runner.Control.Deliveries.{accepted_within}

noted-key :
    (loss : Bool) (result : JobResult)
    → completion_idempotency_key (noted loss result).job_id (noted loss result).attempt
      ≡ completion_idempotency_key result.job_id result.attempt
noted-key true result = refl
noted-key false result = refl

-- A replay over a row that holds a result.
replay-HoldsRow :
    (from_str : Text → Option JobResult) (complete : Text → JobResult → Bool) (later id : Text)
    (a : ℕ) (lease key payload : Text) (done : Bool) (result : JobResult) (t : Tables)
    → HasUniqueRows t.outbox
    → HoldsRow id a lease key payload done t
    → from_str payload ≡ some result
    → completion_idempotency_key result.job_id result.attempt ≡ key
    → any
        (is_pending id a)
        (pending_rows (replay_pending_completions from_str complete later (calm t)).tables)
      ≡ (not done && not (complete lease result))
replay-HoldsRow from_str complete later id a lease key payload done result t u (r, here, l, k, p, d)
      decoded same =
    let taken : is_taken from_str complete (to_pending r) ≡ complete lease result = ground (
      arith,
      ap from_str p,
      ap (λ c. complete c result) l,
      text_eq_iff r.idempotency_key (completion_idempotency_key result.job_id result.attempt),
      k,
      same,
      decoded,
    ) in
    replay_lem from_str complete later t id a u
    ∙ ground (
      arith,
      pending_rows_eq id a t u,
      any-pending_rows id a (is_taken from_str complete) t u,
      here,
      taken,
      d,
    )

module _ (canonicalize : Text → Option Text) (docker : Result Executor) (now : Text)
    (to_string : JobResult → Text) (config : RunnerConfig) (job : LeasedJob) (course : Course)
    (t : Tables) (unique : HasUniqueRows t.outbox) (opens : course.open_journal ≡ ok tt)
    (fresh : find_row
        (leased_outcome canonicalize docker now to_string config job course).job_id
        (leased_outcome canonicalize docker now to_string config job course).attempt
        t.outbox
      ≡ none) where
  run-report :
      run_leased_job canonicalize docker now to_string config job course (calm t)
      ≡ report to_string now job.lease_id
          (log_loss course.flush (upload_logs course.log_answer 0 course.log))
          (leased_outcome canonicalize docker now to_string config job course)
          course.completion_answer
          (calm t)
  unfolding run_leased_job
  run-report = ground (arith, opens)

  -- A result that was not delivered is not lost: the runner starts again, and its completion is then
  -- pending exactly when no answer had accepted it and the control plane does not accept it now.
  pub replay-run_leased_job :
      (from_str : Text → Option JobResult) (complete : Text → JobResult → Bool) (later : Text)
      → let result = leased_outcome canonicalize docker now to_string config job course in
        let loss = log_loss course.flush (upload_logs course.log_answer 0 course.log) in
        let j = (run_leased_job canonicalize docker now to_string config job course (calm t)).1 in
        from_str (to_string (noted loss result)) ≡ some (noted loss result)
        → any
            (is_pending result.job_id result.attempt)
            (pending_rows (replay_pending_completions from_str complete later j).tables)
          ≡ (not (accepted_within course.completion_answer 5)
              && not (complete job.lease_id (noted loss result)))
  replay-run_leased_job from_str complete later decoded =
      let result = leased_outcome canonicalize docker now to_string config job course in
      let loss = log_loss course.flush (upload_logs course.log_answer 0 course.log) in
      let (t', calm', unique', holds) =
        report-IsKept to_string now job.lease_id loss result course.completion_answer t unique
          fresh in
      rw (run-report, calm')
        (replay-HoldsRow from_str complete later result.job_id result.attempt job.lease_id _ _ _
          (noted loss result) t' unique' holds decoded (noted-key loss result))
