-- ===== src/Docker/Sample.antt =====
-- An engine that answers everything, and what the tests of the Docker executor share.
use ai_kodu_runner.Base.{ℤ, pos, text, false, none, some, [], ◌∷◌, ok}
use ai_kodu_runner.Config.{RunnerConfig, default_local, platform_from_env}
use ai_kodu_runner.Protocol.{JobSpec, error_summary}
use ai_kodu_runner.Protocol.Sample.{sample, texts}
use ai_kodu_runner.Lifecycle.{as_str, from_str}
use ai_kodu_runner.Journal.{Journal, calm, transition, statement, upsert_job}
use ai_kodu_runner.Policy.{environment_for_job, variable_entries, secret_entries}
use ai_kodu_runner.Artifacts.{destination, safe_component, safe_char}
use ai_kodu_runner.Docker.Output.{LogTurn}
use ai_kodu_runner.Docker.Stream.{set_log_phase, emit_log}
use ai_kodu_runner.Docker.Redaction.{null, cap_diagnostic, redact_diagnostic_bytes}
use ai_kodu_runner.Docker.Engine.{
  attached, takes, Script, Host, World, ask, ask_result, journaled, look, update, ◌>>=◌, lift,
  on_error,
}
use ai_kodu_runner.Docker.Exec.{
  append_bounded, interrupt, inspect, emit, exec_loop, exec_started, exec_created, exec_command,
}
use ai_kodu_runner.Docker.Resources.{
  without, pulls_always, pull, pull_or_fail, create_network, create_container, start_container,
  remove_container, remove_containers, remove_network,
}
use ai_kodu_runner.Docker.Services.{
  service_container, start_service, create_services, health_check, health_loop, await_services,
  start_services,
}
use ai_kodu_runner.Docker.Flow.{show_int, set_phase, write_feedback, collect_output, capture}
use ai_kodu_runner.Docker.Setup.{interruption, setup_loop, note_setup, initialize}
use ai_kodu_runner.Docker.Iterations.{
  report_of, judge, verifier_loop, mandatory_loop, publish_round, first_round, check_round,
  is_halted, iterations,
}
use ai_kodu_runner.Docker.Workflow.{late_termination, conclude, run_commands}
use ai_kodu_runner.Docker.Job.{
  failure_of, record_state, prepare_job, open_network, write_diagnostic, write_failure_diagnostics,
  collect_artifacts,
}
use ai_kodu_runner.Docker.RunWorkflow.{
  workflow_container, workflow_services, launch, run_in_container, destroy, workflow_result,
  run_workflow,
}
use ai_kodu_runner.Journal.{unfinished, unfinished_rows}

-- A run, opened as a whole.
unfoldable pub a_run : Unit {0}
unfolding texts platform_from_env default_local error_summary as_str from_str ◌>>=◌ transition
    statement upsert_job environment_for_job variable_entries secret_entries destination
    safe_component safe_char set_log_phase emit_log cap_diagnostic redact_diagnostic_bytes ask
    ask_result journaled look update lift on_error append_bounded interrupt inspect emit exec_loop
    exec_started exec_created exec_command without pulls_always pull pull_or_fail create_network
    create_container start_container remove_container remove_containers remove_network
    service_container start_service create_services health_check health_loop await_services
    start_services show_int set_phase write_feedback collect_output capture interruption setup_loop
    note_setup initialize report_of judge verifier_loop mandatory_loop publish_round first_round
    check_round is_halted iterations late_termination conclude run_commands failure_of record_state
    prepare_job open_network write_diagnostic write_failure_diagnostics collect_artifacts
    workflow_container workflow_services launch run_in_container destroy workflow_result
    run_workflow ai_kodu_runner.Journal.◌>>=◌
a_run = tt

abbrev pub config : RunnerConfig
config = default_local (λ _. none) (text "/work")

-- A command that writes one byte and ends with the exit code.
abbrev pub ends_with_code : ℤ → Script
ends_with_code code = record {
  create_exec = takes (ok tt);
  start_exec = takes (ok (attached (LogTurn.std_out (104 ∷ []) ∷ LogTurn.other ∷ [])));
  inspect_exec = ok (some code);
}

abbrev pub host : Host
host = record {
  is_cancelled = λ _. false;
  is_late = λ _. false;
  script = λ _. ends_with_code (pos 0);
  write_file = λ _. ok tt;
  create = λ n. ok (n ∷ []);
  request = λ _. ok tt;
  pull = λ _ _. [];
  polls = λ _. 0;
  list_containers = λ _. ok (
      record { id = some (7 ∷ []); state = some (text "exited") }
      ∷ record { id = some (8 ∷ []); state = some (text "running") }
      ∷ []);
  list_networks = λ _. ok [];
  image_of = λ _. none;
  open_journal = λ _. ok tt;
  prepare = λ _. ok (text "/tmp/job");
  feedback_path = λ _. ok tt;
  logs = λ _. [];
  exit_code = λ _. ok (some (pos 0));
  publish = λ _. ok tt;
  export = λ _. ok none;
  elapsed = λ _. 5;
  uuid = λ _. text "u";
  to_value = λ _. ok null;
  to_vec_pretty = λ _. ok [];
  replace = λ s secret. s;
  environment = λ _. none;
  to_nano_cpus = λ _. pos 1;
  clock = λ _. text "now";
  later = λ _ _. text "later";
  from_utf8_lossy = λ s. s;
  debug_strings = λ _. [];
  log_sender = none;
}

abbrev pub world : World
world = record {
  journal = calm (record { jobs = []; events = []; outbox = [] });
  log = record { context = none; log_sequence = 0; dropped_log_chunks = 0; offered = [] };
  containers = (7 ∷ []) ∷ [];
  networks = [];
  made = [];
  refused = [];
  diagnostics = [];
  stopped = [];
  feedback = [];
  history = [];
  now = 0;
}

abbrev pub bridged : JobSpec
bridged = record sample { network = record { mode = text "bridge" }; secrets = [] }
