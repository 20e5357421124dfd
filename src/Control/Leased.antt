-- ===== src/Control/Leased.antt =====
-- `run_leased_job`: the job is admitted and run while its log is uploaded and its lease is kept, the
-- log is flushed, and the result is reported.
use ai_kodu_runner.Base.{ℕ, Text, Bool, true, ◌||◌, Option, List, Result, ok, err}
use ai_kodu_runner.Config.{RunnerConfig}
use ai_kodu_runner.Protocol.{JobResult, LogChunk}
use ai_kodu_runner.Policy.{validate_with_context, daemon}
use ai_kodu_runner.Executor.{Executor, factory}
use ai_kodu_runner.Journal.{Action}
use ai_kodu_runner.Control.Heartbeat.{Tick, heartbeat_loop}
use ai_kodu_runner.Control.Logs.{Answer, Upload, upload_logs}
use ai_kodu_runner.Control.Dispatch.{job_outcome}
use ai_kodu_runner.Control.Completion.{report}
use ai_kodu_runner.Control.Daemon.{LeasedJob}

-- What the timeout round the upload task gives: its end in time, its failure, or nothing.
pub data Flush : Type 0 where
  joined task_failed expired : Flush

-- What happens around a leased job: the token before it, what cancels it from outside by the time that
-- the run has failed, the heartbeats up to then, the chunks of its log, and the answers.
pub record Course : Type 0 where
  pub started : Bool
  pub stopped : Bool
  pub ticks : List Tick
  pub log : List LogChunk
  pub log_answer : ℕ → Answer
  pub flush : Flush
  pub open_journal : Result (Unit {0})
  pub completion_answer : ℕ → Answer

-- `.map(|result| result.unwrap_or(true)).unwrap_or(true)`
unfoldable pub log_loss : Flush → Upload → Bool
log_loss joined upload = upload.loss
log_loss task_failed upload = true
log_loss expired upload = true

module _ (canonicalize : Text → Option Text) (docker : Result Executor) (now : Text)
    (to_string : JobResult → Text) where
  -- The token when the run has failed: cancelled from outside, or by the heartbeat.
  unfoldable pub leased_outcome : RunnerConfig → LeasedJob → Course → JobResult
  leased_outcome config job course =
      job_outcome now job.spec course.started
        (course.stopped || (heartbeat_loop 0 course.ticks).cancels)
        (validate_with_context canonicalize job.spec config daemon) (factory docker)

  unfoldable pub run_leased_job : RunnerConfig → LeasedJob → Course → Action (Unit {0})
  unfolding leased_outcome log_loss
  run_leased_job config job course j =
      let result = leased_outcome config job course in
      let loss = log_loss course.flush (upload_logs course.log_answer 0 course.log) in
      elim course.open_journal [
        | err e ↦ (err e, j)
        | ok opened ↦ report to_string now job.lease_id loss result course.completion_answer j
      ]
