-- ===== src/Docker/Flow.antt =====
-- A command of a workflow, and the mutable variables of `run_workflow`.
use ai_kodu_runner.Base.{
  ℕ, ◌+◌, ℤ, pos, negsuc, Text, text, decimal, Bool, true, false, ◌||◌, Option, none, some, List,
  [], ◌∷◌, ◌++◌,
}
use ai_kodu_runner.Config.{RunnerConfig}
use ai_kodu_runner.Protocol.{CommandSpec, VerifierSpec}
use ai_kodu_runner.Docker.Stream.{set_log_phase}
use ai_kodu_runner.Docker.Engine.{
  ExecutionTermination, ExecResult, Host, Run, pure, ask_result, update, ◌>>=◌, ◌>>◌,
}
use ai_kodu_runner.Docker.Exec.{append_bounded, exec_command}

pub record Flow : Type 0 where
  pub final_status : Text
  pub setup_ok : Bool
  pub failed_phase : Option Text
  pub stdout : List ℕ
  pub stderr : List ℕ
  pub truncated : Bool
  pub termination : Option ExecutionTermination

abbrev pub first_flow : Flow
first_flow = record {
  final_status = text "failed";
  setup_ok = true;
  failed_phase = none;
  stdout = [];
  stderr = [];
  truncated = false;
  termination = none;
}

-- The variables of one round.
pub record Round : Type 0 where
  pub flow : Flow
  pub all_passed : Bool
  pub report : Text

-- `i64` in a format
unfoldable pub show_int : ℤ → Text
show_int (pos n) = decimal n
show_int (negsuc n) = b'-' ∷ decimal (n + 1)

abbrev pub line : Text → Text
line s = s ++ (b'\n' ∷ [])

abbrev pub stop_at : ExecutionTermination → (phase : Text) → Flow → Flow
stop_at reason phase flow = record flow { termination = some reason; failed_phase = some phase }

abbrev pub fail_setup : (phase : Text) → Flow → Flow
fail_setup phase flow = record flow { setup_ok = false; failed_phase = some phase }

abbrev pub verifier_command : VerifierSpec → CommandSpec
verifier_command v = record { command = v.command; working_directory = v.working_directory }

abbrev pub status_of : ExecutionTermination → Text
status_of ExecutionTermination.cancelled = text "cancelled"
status_of ExecutionTermination.timed_out = text "timed_out"

unfoldable pub set_phase : Text → Run (Unit {0})
set_phase phase = update (λ w. record w { log = set_log_phase phase w.log })

module _ (config : RunnerConfig) (host : Host) where
  abbrev pub max_log_bytes : ℕ
  max_log_bytes = config.limits.max_log_bytes

  unfoldable pub write_feedback : Text → Run (Unit {0})
  write_feedback content = do
    ask_result host.write_file
    update (λ w. record w { feedback = w.feedback ++ content ∷ [] })

  -- What is kept of a command's output, within the limit on each stream.
  unfoldable pub collect_output : ExecResult → Flow → Flow
  unfolding append_bounded
  collect_output result flow =
      let (out_cut, out) = append_bounded flow.stdout result.stdout max_log_bytes in
      let (error_cut, error) = append_bounded flow.stderr result.stderr max_log_bytes in
      record flow {
        stdout = out;
        stderr = error;
        truncated = flow.truncated || result.truncated || out_cut || error_cut;
      }

  -- A command of the workflow: its phase, its run, its output.
  unfoldable pub capture : (id phase : Text) → CommandSpec → Flow → Run (ExecResult × Flow)
  unfolding collect_output set_phase
  capture id phase command flow = do
    set_phase phase
    result ← exec_command max_log_bytes host id command
    pure (result, collect_output result flow)
