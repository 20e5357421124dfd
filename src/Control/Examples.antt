-- ===== src/Control/Examples.antt =====
-- Tests of the work on a leased job, and instances of its theorems.
use ai_kodu_runner.Base.{
  ℕ, ◌≤◌, Text, text, text_eq, decimal, true, false, not, ◌&&◌, Option, none, some, List, [], ◌∷◌,
  any, length, Result, ok, err, bail, is_ok, ◌==◌, ◌≡◌, ◌≢◌, ◌↔◌, ◌⊎◌, refl, if◌then◌else◌,
}
use ai_kodu_runner.Protocol.{JobResult, LogChunk, FailureKind}
use ai_kodu_runner.Protocol.Sample.{sample, texts}
use ai_kodu_runner.Executor.{mock_run, mock_executor}
use ai_kodu_runner.Journal
use ai_kodu_runner.Journal.{
  Tables, calm, statement, enqueue_completion, insert_outbox, record_completion_attempt,
  mark_completion_delivered, update_outbox, pending_completions, undelivered, order_by_time,
  insert_by_time, text_leb,
}
use ai_kodu_runner.Journal.Outbox.{HasUniqueRows, find_row, is_pending, pending_rows}
use ai_kodu_runner.Control.Heartbeat.{
  HeartbeatDecision, go_on, lease_lost, Tick, answered, refused, heartbeat_loop,
}
use ai_kodu_runner.Control.Logs.{Answer, accepted, timed_out, upload_chunk, upload_logs}
use ai_kodu_runner.Control.Dispatch.{job_outcome}
use ai_kodu_runner.Control.Completion.{
  completion_idempotency_key, completion_loop, report, replay_entry, replay_entries,
  replay_pending_completions,
}
use ai_kodu_runner.Control.Beats.{three_refused, verdict, lost, heartbeat_loop_lem}
use ai_kodu_runner.Control.Verdicts.{IsFailed, IsRun, Cause, job_outcome_lem}
use ai_kodu_runner.Control.Deliveries.{accepted_within, report_lem}
use ai_kodu_runner.Control.Replays.{is_taken, replay_lem}
use ai_kodu_runner.Config.{RunnerConfig, default_local, platform_from_env}
use ai_kodu_runner.Control.Daemon.{
  Step, LeasedJob, draining, ended, Daemon, concurrency_of, acquire, lease, shut_down_acquiring,
  Reachable, starts, steps,
}
use ai_kodu_runner.Control.Http.{
  Request, Response, HttpControlPlane, trim_start_slashes, endpoint, error_for_status, request,
  request_lease, heartbeat_response, heartbeat, new_plane,
}
use ai_kodu_runner.Control.Answers.{heartbeat_request, IsLost, heartbeat_iff}
use ai_kodu_runner.Control.Daemons.{HasNext, ComesToEnd, Drains, daemon_lem}
use ai_kodu_runner.Control.Keys.{idempotency_key_injective}

control : Unit {0}
unfolding texts text_leb heartbeat_loop upload_chunk upload_logs completion_idempotency_key
    completion_loop report replay_entry replay_entries replay_pending_completions decimal mock_run
    mock_executor Journal.◌>>=◌ statement enqueue_completion insert_outbox record_completion_attempt
    mark_completion_delivered update_outbox pending_completions undelivered order_by_time
    insert_by_time find_row
control = tt

-- Two failures, an answer, and three failures.
abbrev ticks : List Tick
ticks =
    refused (bail [])
    ∷ refused (bail [])
    ∷ answered go_on
    ∷ refused (bail [])
    ∷ refused (bail [])
    ∷ refused (bail [])
    ∷ []

abbrev chunk : LogChunk
chunk = record {
  attempt = 1;
  sequence = 0;
  stream = text "stdout";
  phase = text "agent";
  level = none;
  message = text "hello";
}

-- The first call times out, the later ones are accepted.
abbrev second : ℕ → Answer
second n = if n == 0 then timed_out else accepted

abbrev no_tables : Tables
no_tables = record { jobs = []; events = []; outbox = [] }

abbrev finished : JobResult
finished = mock_run (text "now") sample none

abbrev to_json : JobResult → Text
to_json r = r.job_id

abbrev from_json : Text → Option JobResult
from_json s = if text_eq s (text "job-1") then some finished else none

-- The journal after a report that was never accepted.
abbrev unreported : Tables
unreported =
    (report to_json (text "now") (text "lease") false finished (λ n. timed_out)
      (calm no_tables)).1.tables

control_tests :
    (heartbeat_loop 0 ticks ≡ lost)
    × ((upload_logs second 0 (chunk ∷ [])).calls ≡ 2)
    × ((upload_logs (λ n. timed_out) 0 (chunk ∷ chunk ∷ [])).loss ≡ true)
    × (completion_idempotency_key (text "job-1") 12 ≡ text "job-1:12")
    × (any (is_pending (text "job-1") 1) (pending_rows unreported) ≡ true)
    × (any (is_pending (text "job-1") 1) (
          pending_rows
            (replay_pending_completions from_json
              (λ lease r. true)
              (text "later")
              (calm unreported)).tables)
        ≡ false)
unfolding control
control_tests = (refl, refl, refl, refl, refl, refl)

heartbeat_loop_lem_example : heartbeat_loop 0 ticks ≡ verdict (three_refused ticks)
heartbeat_loop_lem_example = heartbeat_loop_lem ticks (tt, (tt, (tt, (tt, (tt, (tt, tt))))))

job_outcome_lem_example :
    IsRun sample false
      (ok sample.resources)
      (ok [])
      (ok (job_outcome (text "now") sample false true (ok sample.resources) (ok [])))
    ⊎ ((kind : FailureKind) × IsFailed sample kind
          (job_outcome (text "now") sample false true (ok sample.resources) (ok []))
        × Cause sample false true (ok sample.resources) (ok []) kind)
job_outcome_lem_example =
    job_outcome_lem (text "now") sample false true (ok sample.resources) (ok [])

report_lem_example :
    let (value, j) =
      report to_json (text "now") (text "lease") false finished second (calm no_tables) in
    (is_ok value ≡ accepted_within second 5)
    × (any (is_pending finished.job_id finished.attempt) (pending_rows j.tables)
        ≡ not (accepted_within second 5))
    × ((k : Text) (b : ℕ)
        → (text_eq finished.job_id k && finished.attempt == b) ≡ false
        → any (is_pending k b) (pending_rows j.tables)
          ≡ any (is_pending k b) (pending_rows no_tables))
unfolding find_row
report_lem_example =
    report_lem to_json (text "now") (text "lease") false finished second no_tables tt refl

unique : HasUniqueRows unreported.outbox
unfolding control
unique = (refl, tt)

replay_lem_example :
    any (is_pending (text "job-1") 1) (
      pending_rows
        (replay_pending_completions from_json
          (λ lease r. true)
          (text "later")
          (calm unreported)).tables)
    ≡ (any (is_pending (text "job-1") 1) (pending_rows unreported)
        && not (
            any
              (λ e. is_pending (text "job-1") 1 e && is_taken from_json (λ lease r. true) e)
              (pending_rows unreported)))
replay_lem_example =
    replay_lem from_json (λ lease r. true) (text "later") unreported (text "job-1") 1 unique

abbrev attempt : ℕ
attempt = 2

idempotency_key_injective_example : (text "a:1" ≡ text "a:1") × (attempt ≡ attempt)
idempotency_key_injective_example =
    idempotency_key_injective (text "a:1") (text "a:1") attempt attempt refl

-- A daemon of two permits, after one job and a shutdown.
abbrev two : RunnerConfig
two = record (default_local (λ _. none) (text "/work")) { concurrency = some 2 }

abbrev leased : LeasedJob
leased = record { lease_id = text "l"; spec = sample }

abbrev busy : Daemon
busy = record { phase = draining; permits = 1; jobs = leased ∷ []; started = leased ∷ [] }

busy-Reachable : Reachable two busy
unfolding default_local platform_from_env
busy-Reachable = steps (steps (steps starts acquire) (lease leased)) shut_down_acquiring

daemon_lem_example :
    (length busy.jobs ≤ concurrency_of two)
    × (busy.phase ≡ ended → busy.jobs ≡ [])
    × (busy.phase ≢ ended → HasNext two busy)
    × (busy.phase ≡ draining → ((e : Daemon) → Step busy e → Drains busy e) × ComesToEnd busy)
daemon_lem_example = daemon_lem two busy busy-Reachable

abbrev plane : HttpControlPlane
plane = record { base = text "https://host/"; token = text "t"; runner = text "r" }

-- A control plane whose leases are gone.
abbrev gone : Request → Result Response
gone b = ok (record { status = 410; body = [] })

abbrev no_decision : Text → Result HeartbeatDecision
no_decision body = err (bail [])

http_tests :
    (endpoint plane (text "/v1") ≡ text "https://host/v1")
    × (heartbeat gone plane no_decision (text "l") ≡ ok lease_lost)
    × (request_lease
          (λ b. ok (record { status = 204; body = [] }))
          plane
          (λ r. r)
          (λ b. err (bail []))
        ≡ ok none)
    × (is_ok (request gone plane (heartbeat_request plane (text "l"))) ≡ false)
    × (new_plane (ok tt) (λ _. none) two ≡ err (bail (text "server_url is required for daemon")))
unfolding text endpoint trim_start_slashes heartbeat heartbeat_response request_lease request
    error_for_status heartbeat_request new_plane default_local platform_from_env
http_tests = (refl, refl, refl, refl, refl)

heartbeat_iff_example :
    (heartbeat gone plane no_decision (text "l") ≡ ok lease_lost)
    ↔ ((r : Response) × (gone (heartbeat_request plane (text "l")) ≡ ok r) × IsLost no_decision r)
heartbeat_iff_example = heartbeat_iff gone plane no_decision (text "l")
