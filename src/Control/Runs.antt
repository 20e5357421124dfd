-- ===== src/Control/Runs.antt =====
-- Tests of a leased job as a whole, and instances of its theorems.
use ai_kodu_runner.Base.{
  ap, ok-injective, Text, text, true, false, not, ◌&&◌, Option, none, some, [], any, Result, ok,
  err, bail, ◌≡◌, ◌↔◌, refl,
}
use ai_kodu_runner.Protocol.{JobResult, JobSpec, JobSpecV1beta1, Codec, from_json}
use ai_kodu_runner.Protocol.Sample.{sample, texts}
use ai_kodu_runner.Config.{RunnerConfig, default_local}
use ai_kodu_runner.Executor.{Executor}
use ai_kodu_runner.Journal.{Tables, calm}
use ai_kodu_runner.Journal.Outbox.{find_row, is_pending, pending_rows}
use ai_kodu_runner.Control.Logs.{accepted, timed_out}
use ai_kodu_runner.Control.Completion.{replay_pending_completions}
use ai_kodu_runner.Control.Daemon.{LeasedJob}
use ai_kodu_runner.Control.Leased.{expired, Course, log_loss, leased_outcome, run_leased_job}
use ai_kodu_runner.Control.Deliveries.{accepted_within}
use ai_kodu_runner.Control.Http.{
  Request, Response, RawLease, HttpControlPlane, trim_start_slashes, endpoint, error_for_status,
  request, request_lease, decode_lease,
}
use ai_kodu_runner.Control.Leases.{HasBody, lease_request, request_lease_iff}
use ai_kodu_runner.Control.Survives.{replay-run_leased_job}

abbrev config : RunnerConfig
config = default_local (λ _. none) (text "/work")

abbrev job : LeasedJob
job = record { lease_id = text "lease"; spec = sample }

-- Five refusals: the completion stays in the outbox, and its log is lost.
abbrev course : Course
course = record {
  started = false;
  stopped = false;
  ticks = [];
  log = [];
  log_answer = λ _. accepted;
  flush = expired;
  open_journal = ok tt;
  completion_answer = λ _. timed_out;
}

abbrev no_docker : Result Executor
no_docker = err (bail (text "no Docker"))

abbrev no_tables : Tables
no_tables = record { jobs = []; events = []; outbox = [] }

abbrev canonical : Text → Option Text
canonical path = some path

abbrev to_json : JobResult → Text
to_json result = result.job_id

abbrev outcome : JobResult
outcome = leased_outcome canonical no_docker (text "now") to_json config job course

abbrev lost : JobResult
lost = record outcome { log_truncated = true }

abbrev read_back : Text → Option JobResult
read_back payload = some lost

replay-run_leased_job_example :
    any (is_pending outcome.job_id outcome.attempt) (
      pending_rows
        (replay_pending_completions read_back
          (λ _ _. true)
          (text "later")
          (run_leased_job canonical no_docker
            (text "now")
            to_json
            config
            job
            course
            (calm no_tables)).1).tables)
    ≡ (not (accepted_within (λ _. timed_out) 5) && not true)
unfolding find_row log_loss
replay-run_leased_job_example =
    replay-run_leased_job canonical no_docker (text "now") to_json config job course no_tables tt
      refl refl read_back (λ _ _. true) (text "later") refl

alpha_keeps_version :
    (v s : JobSpec) → ok v ≡ ok s → ◌≡◌ {A = Option Text} (some v.api_version) (some s.api_version)
alpha_keeps_version v s h = ap (λ (t : JobSpec). some t.api_version) (ok-injective h)

no_beta :
    (v : JobSpec) (s : JobSpecV1beta1)
    → ◌≡◌ {A = Result JobSpecV1beta1} (err (bail [])) (ok s)
    → ◌≡◌ {A = Option Text} (some v.api_version) (some s.api_version)
no_beta v s h = cc

-- A library that reads one job, of the first version.
abbrev codec : Codec
codec = record {
  Value = JobSpec;
  parse = λ document. ok sample;
  version = λ v. some v.api_version;
  alpha = λ v. ok v;
  beta = λ v. err (bail []);
  alpha-version = alpha_keeps_version;
  beta-version = no_beta;
}

abbrev raw_lease : Text → Result (RawLease JobSpec)
raw_lease body = ok (record { lease_id = body; spec = sample })

abbrev print : JobSpec → Result Text
print spec = ok spec.id

abbrev answer : Request → Result Response
answer request = ok (record { status = 200; body = text "lease" })

abbrev plane : HttpControlPlane
plane = record { base = text "https://host/"; token = text "t"; runner = text "r" }

abbrev runner_json : Text → Text
runner_json runner = runner

lease_tests :
    (request_lease answer plane runner_json (decode_lease codec raw_lease print) ≡ ok (some job))
    × (request_lease
          (λ r. ok (record { status = 204; body = [] }))
          plane
          runner_json
          (decode_lease codec raw_lease print)
        ≡ ok none)
unfolding texts request_lease decode_lease request error_for_status endpoint trim_start_slashes
    from_json
lease_tests = (refl, refl)

request_lease_iff_example :
    (request_lease answer plane runner_json (decode_lease codec raw_lease print) ≡ ok (some job))
    ↔ ((r : Response) × (raw : RawLease JobSpec) × (document : Text) × (answer
            (lease_request codec raw_lease print answer plane runner_json)
          ≡ ok r)
        × HasBody r
        × (raw_lease r.body ≡ ok raw)
        × (print raw.spec ≡ ok document)
        × (from_json codec document ≡ ok sample)
        × (text "lease" ≡ raw.lease_id))
request_lease_iff_example = request_lease_iff codec raw_lease print answer plane runner_json job
