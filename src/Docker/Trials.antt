-- ===== src/Docker/Trials.antt =====
-- Runs of a workflow and of a command against an engine that answers everything, and instances of
-- their theorems.
use ai_kodu_runner.Base.{
  pos, Text, text, member, true, false, none, some, [], ◌∷◌, ◌++◌, length, ltb, Result, ok, err,
  ◌≡◌, refl, to_string, List, ◌+◌, ◌≤◌, All, map,
}
use ai_kodu_runner.Protocol.{
  CommandSpec, JobSpec, JobResult, error_summary, failed_from_failure, execution,
}
use ai_kodu_runner.Protocol.Sample.{sample, steps}
use ai_kodu_runner.Lifecycle.{
  from_str, received, preparing, running, collecting, destroying, destroyed,
}
use ai_kodu_runner.Policy.{environment_for_job, variable_entries, secret_entries}
use ai_kodu_runner.Docker.Output.{LogTurn}
use ai_kodu_runner.Docker.Captured.{written_out, written_err}
use ai_kodu_runner.Docker.Engine.{ExecResult, ContainerConfig, Host, World}
use ai_kodu_runner.Docker.Exec.{exec_command}
use ai_kodu_runner.Docker.Flow.{Flow}
use ai_kodu_runner.Docker.Workflow.{run_commands}
use ai_kodu_runner.Docker.RunWorkflow.{run_workflow}
use ai_kodu_runner.Docker.Track.{AreRefused, events, entered}
use ai_kodu_runner.Policy.{
  validate, validate_with_context, clamp, canonical_or, check_workspace, is_within,
}
use ai_kodu_runner.Docker.Output.{LogState, no_log, accept, final_status}
use ai_kodu_runner.Docker.Stream.{begin_log_stream}
use ai_kodu_runner.Docker.RunCommand.{
  replace_first, retry_script, command_with_opencode_retry, headless_opencode_environment,
  command_container, stop_container, container_logs, launch_command, inspect_container, end_command,
  command_result, run_command, begin_job, run,
}
use ai_kodu_runner.Docker.Ended.{run_lem}
use ai_kodu_runner.Docker.Profile.{IsConfined}
use ai_kodu_runner.Docker.Confined.{run-IsConfined}
use ai_kodu_runner.Docker.Logs.{container_logs_lem}
use ai_kodu_runner.Docker.Sample.{a_run, config, ends_with_code, host, world, bridged}

-- A run of a single command.
a_command : Unit {0}
unfolding a_run replace_first retry_script command_with_opencode_retry headless_opencode_environment
    command_container stop_container container_logs launch_command inspect_container end_command
    command_result run_command begin_job run accept final_status begin_log_stream validate
    validate_with_context clamp canonical_or check_workspace is_within
    ai_kodu_runner.Protocol.validate ai_kodu_runner.Policy.check_names
    ai_kodu_runner.Policy.check_policy_secrets ai_kodu_runner.Policy.path_starts_with
    ai_kodu_runner.Policy.join
a_command = tt

abbrev agent : CommandSpec
agent = steps.agent

abbrev exec_end : World
exec_end = (exec_command 1 host (7 ∷ []) agent world).1

abbrev exec_result : ExecResult
exec_result = record {
  status = pos 0;
  stdout = 104 ∷ [];
  stderr = [];
  truncated = false;
  termination = none;
}

abbrev flow : Flow
flow = record {
  final_status = text "completed";
  setup_ok = true;
  failed_phase = none;
  stdout = 104 ∷ 104 ∷ [];
  stderr = [];
  truncated = false;
  termination = none;
}

abbrev flow_end : World
flow_end = (run_commands config host (7 ∷ []) steps world).1

abbrev taken : Result JobResult → JobResult
taken (ok r) = r
taken (err e) =
    failed_from_failure (text "now") sample
      (record { kind = execution; code = text "none"; message = to_string e })

abbrev run_end : World
run_end = (run_workflow config host bridged steps (sample.resources) world).1

abbrev run_result : JobResult
run_result = taken (run_workflow config host bridged steps (sample.resources) world).0

-- The same against an engine whose commands fail, or whose deadline passes after the set-up.
abbrev failing : Host
failing = record host { script = λ _. ends_with_code (pos 1) }

abbrev status_by : Host → Text
status_by h =
    (taken
      (run_workflow config h bridged (record steps { services = [] }) (sample.resources)
        world).0).status

run_tests :
    (run_result.status ≡ text "completed")
    × (run_end.containers ≡ (7 ∷ []) ∷ [])
    × (run_end.networks ≡ [])
    × (status_by failing ≡ text "failed")
    × (status_by (record host { is_late = λ n. ltb 8 n }) ≡ text "timed_out")
    × (status_by (record host { is_cancelled = λ n. ltb 8 n }) ≡ text "cancelled")
    × (length (run_commands config failing [] steps world).1.feedback ≡ 3)
unfolding a_run
run_tests = (refl, refl, refl, refl, refl, refl, refl)

-- The job by its policy: `canonicalize` leaves a path as it is.
abbrev admitted : JobSpec
admitted = record bridged { workflow = none; network = record { mode = text "none" } }

abbrev ended : Result JobResult × World
ended = run config host (λ p. some p) admitted world

run_lem_example :
    (events ended.1
      ≡ events world
        ++ entered admitted (
            received
            ∷ preparing
            ∷ running
            ∷ collecting
            ∷ from_str (taken ended.0).status
            ∷ destroying
            ∷ destroyed
            ∷ []))
    × ((x : Text)
        → member x ended.1.containers ≡ true
        → member x (ended.1.refused ++ world.containers) ≡ true)
    × ((x : Text)
        → member x ended.1.networks ≡ true
        → member x (ended.1.refused ++ world.networks) ≡ true)
    × AreRefused host world.refused ended.1.refused
unfolding a_command
run_lem_example = run_lem admitted world config host (λ p. some p) (taken ended.0) ended.1 refl

run-IsConfined_example :
    (new : List ContainerConfig) × (ended.1.made ≡ world.made ++ new)
    × All (IsConfined config host admitted) new
run-IsConfined_example = run-IsConfined config host admitted (λ p. some p) world

-- A run by a workflow makes the container of each service and that of the job.
made_tests :
    (length ended.1.made ≡ 1)
    × (map (λ c. c.host_config.cap_drop) run_end.made ≡ [] ∷ (text "ALL" ∷ []) ∷ [])
unfolding a_command
made_tests = (refl, refl)

abbrev turns : List LogTurn
turns = LogTurn.std_out (1 ∷ 2 ∷ []) ∷ LogTurn.cancelled ∷ []

abbrev logged : LogState
logged = record no_log { stdout = 1 ∷ 2 ∷ []; log_bytes = 2; cancellation_requested = true }

container_logs_lem_example :
    (length logged.stdout + length logged.stderr ≤ config.limits.max_log_bytes)
    × (logged.truncated ≡ false
        → (logged.stdout ≡ written_out turns) × (logged.stderr ≡ written_err turns))
unfolding a_command
container_logs_lem_example =
    container_logs_lem config host (7 ∷ []) turns world
      (container_logs config host (7 ∷ []) no_log turns world).1 logged refl
