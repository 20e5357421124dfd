-- ===== src/Executor/Mock.antt =====
-- `MockExecutor`: it runs nothing, and reports a job completed or cancelled. `now` is the clock's text.
use ai_kodu_runner.Base.{
  pos, Text, text, Bool, true, false, Option, none, some, [], ◌∷◌, ok, if◌then◌else◌,
}
use ai_kodu_runner.Protocol.{JobSpec, JobResult, cancellation}
use ai_kodu_runner.Executor.Defs.{ExecutorCapabilities, new_capabilities, DoctorReport, Executor}

unfoldable pub mock_capabilities : ExecutorCapabilities
mock_capabilities =
    new_capabilities (text "artifacts" ∷ text "cancellation" ∷ text "streaming_logs" ∷ [])

unfoldable pub mock_doctor : DoctorReport
mock_doctor = record {
  executor = text "mock";
  healthy = true;
  capabilities = mock_capabilities;
  checks =
      record { name = text "mock"; healthy = true; message = text "mock executor is ready" } ∷ [];
}

abbrev pub is_cancelled : Option Bool → Bool
is_cancelled none = false
is_cancelled (some cancelled) = cancelled

unfoldable pub mock_run : Text → JobSpec → Option Bool → JobResult
mock_run now spec cancel =
    let cancelled = is_cancelled cancel in
    record {
      job_id = spec.id;
      attempt = spec.attempt;
      status = if cancelled then text "cancelled" else text "completed";
      exit_code = if cancelled then none else some (pos 0);
      started_at = now;
      finished_at = now;
      duration_ms = 0;
      log_truncated = false;
      stdout = [];
      stderr = [];
      error_summary = none;
      failure =
          if cancelled
          then some (record {
            kind = cancellation;
            code = text "cancelled";
            message = text "execution cancelled";
          })
          else none;
      failed_phase = none;
      artifacts = [];
      artifact_dir = none;
      sandbox = record { executor = text "mock"; container_id = []; image_id = none };
    }

unfoldable pub mock_executor : Text → Executor
mock_executor now = record {
  capabilities = mock_capabilities;
  doctor = ok mock_doctor;
  run = λ spec cancel. ok (mock_run now spec cancel);
  cleanup = ok tt;
}
