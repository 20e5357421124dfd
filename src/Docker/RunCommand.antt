-- ===== src/Docker/RunCommand.antt =====
-- `run`: the admission of a job, its workflow or its single command, and the log of the command's
-- container.
use ai_kodu_runner.Base.{
  ℕ, ltb, ℤ, negsuc, Text, text, bytes, text_eq, contains, starts_with, true, false, not, ◌||◌,
  ◌&&◌, Option, none, some, is_some, List, [], ◌∷◌, ◌++◌, any, drop, length, if◌then◌else◌, ok, err,
  bail, to_string,
}
use ai_kodu_runner.Config.{RunnerConfig}
use ai_kodu_runner.Protocol.{Resources, JobSpec, JobResult, error_summary}
use ai_kodu_runner.Lifecycle.{running, collecting, from_str}
use ai_kodu_runner.Policy.{environment_for_job}
use ai_kodu_runner.Policy
use ai_kodu_runner.Docker.Output.{LogTurn, LogState, no_log, accept, raw_status, final_status}
use ai_kodu_runner.Docker.Stream.{begin_log_stream, set_log_phase}
use ai_kodu_runner.Docker.Engine.{
  ContainerConfig, Host, World, Run, pure, fail, lift, on_error, look, ask, update, ◌>>=◌, ◌>>◌,
}
use ai_kodu_runner.Docker.Exec.{emit}
use ai_kodu_runner.Docker.Resources.{
  create_container, start_container, remove_container, remove_network,
}
use ai_kodu_runner.Docker.Job.{
  Network, mode_of, job_host_config, job_labels, failure_of, record_state, prepare_job,
  open_network, collect_artifacts,
}
use ai_kodu_runner.Docker.RunWorkflow.{destroy, run_workflow}

-- `s.replacen(pattern, replacement, 1)`
unfoldable pub replace_first : (pattern replacement s : Text) → Text
replace_first pattern replacement [] = []
replace_first pattern replacement (c ∷ s) =
    let rest = replace_first pattern replacement s in
    if starts_with pattern (c ∷ s) then replacement ++ drop (length pattern) (c ∷ s) else c ∷ rest

abbrev pub opencode_run : Text
opencode_run = text "opencode run "

unfoldable pub retry_script : (script : Text) → Text
retry_script script =
    text "set +e\n(\n"
    ++ (script
        ++ (text
              "\n)\nrunner_rc=$?\nif [ \"$runner_rc\" -ne 0 ] && grep -Fq 'Unexpected server error' .ai-kodu-runner/results/opencode.json 2>/dev/null; then\n    echo 'OpenCode reported an unexpected error; retrying once in 2 seconds' >&2\n    sleep 2\n    (\n"
            ++ (script ++ text "\n    )\n    runner_rc=$?\nfi\nexit \"$runner_rc\"")))

unfoldable pub command_with_opencode_retry : List Text → List Text
unfolding retry_script replace_first
command_with_opencode_retry (shell ∷ option ∷ script ∷ []) =
    if text_eq shell (text "bash")
      && text_eq option (text "-lc")
      && contains opencode_run script
      && contains (text ".ai-kodu-runner/results/opencode.json") script
    then shell
      ∷ option
      ∷ retry_script
          (replace_first opencode_run (text "opencode run --print-logs --log-level INFO ") script)
      ∷ []
    else shell ∷ option ∷ script ∷ []
command_with_opencode_retry command = command

unfoldable pub headless_opencode_environment : (env command : List Text) → List Text
headless_opencode_environment env command =
    if any (contains opencode_run) command
    then env
      ++ text "OPENCODE_CONFIG_CONTENT={\"agent\":{\"title\":{\"disable\":true}}}"
        ∷ text "OPENCODE_DISABLE_MODELS_FETCH=true"
        ∷ []
    else env

unfoldable pub command_container :
    RunnerConfig
    → Host
    → (directory network_mode expires_at : Text) → (env : List Text) → JobSpec
    → Resources
    → ContainerConfig
unfolding command_with_opencode_retry job_host_config job_labels
command_container config host directory network_mode expires_at env spec resources = record {
  image = spec.image;
  cmd = command_with_opencode_retry spec.command;
  working_dir = some spec.working_directory;
  env = env;
  aliases = [];
  healthcheck = none;
  labels = job_labels config spec ++ (text "ai-kodu-runner.expires_at", expires_at) ∷ [];
  host_config = job_host_config host directory network_mode spec resources;
}

-- The end of a command's run: the log, the status, the exit code, and the standard error with what
-- the publication adds to it.
pub record Ending : Type 0 where
  pub log : LogState
  pub status : Text
  pub exit_code : Option ℤ
  pub stderr : List ℕ

unfoldable pub begin_job : JobSpec → World → World
begin_job spec w = record w {
  log =
      set_log_phase (if is_some spec.workflow then text "prepare" else text "command")
        (begin_log_stream spec.id spec.attempt w.log);
}

module _ (config : RunnerConfig) (host : Host) where
  abbrev max_log_bytes : ℕ
  max_log_bytes = config.limits.max_log_bytes

  unfoldable pub stop_container : (id : Text) → Run (Unit {0})
  stop_container id = update (λ w. record w { stopped = w.stopped ++ id ∷ [] })

  -- The log loop with its effects: what is kept is emitted, and a loop that is ended from outside has
  -- the container stopped, whatever the engine answers.
  unfoldable pub container_logs : (id : Text) → LogState → List LogTurn → Run LogState
  unfolding accept stop_container
  container_logs id s [] = pure s
  container_logs id s (LogTurn.cancelled ∷ rest) = do
    stop_container id
    pure (record s { cancellation_requested = true })
  container_logs id s (LogTurn.timed_out ∷ rest) = do
    stop_container id
    pure (record s { timeout_requested = true })
  container_logs id s (LogTurn.std_out message ∷ rest) = do
    let (kept, after) = accept max_log_bytes s message
    update (emit max_log_bytes host (text "stdout") kept)
    container_logs id (record after { stdout = s.stdout ++ kept }) rest
  container_logs id s (LogTurn.std_err message ∷ rest) = do
    let (kept, after) = accept max_log_bytes s message
    update (emit max_log_bytes host (text "stderr") kept)
    container_logs id (record after { stderr = s.stderr ++ kept }) rest
  container_logs id s (LogTurn.other ∷ rest) = container_logs id s rest
  container_logs id s (LogTurn.failed e ∷ rest) = fail e

  -- The container of the command, created, recorded as running and started.
  unfoldable pub launch_command : ContainerConfig → JobSpec → Network → Run Text
  launch_command container spec network = do
    id ← on_error (create_container host container) (remove_network host network.id)
    record_state config host spec running
    on_error (start_container host id) (do remove_container host id; remove_network host network.id)
    pure id

  -- The container's exit code, -1 where it has none; an error removes the container and the network.
  unfoldable pub inspect_container : (id : Text) → Network → Run ℤ
  inspect_container id network = do
    answer ← ask host.exit_code
    elim answer [
      | ok code ↦ pure (elim code [ none ↦ negsuc 0 | some c ↦ c ])
      | err e ↦ do
        remove_container host id
        remove_network host network.id
        fail (
            bail
              (text "Docker container inspect failed for " ++ (id ++ (text ": " ++ to_string e))))
    ]

  -- The token is asked only if the loop was not ended by it, and the deadline only where neither has
  -- ended the run; the workspace is published only after a completed run.
  unfoldable pub end_command : LogState → (status : ℤ) → Run Ending
  unfolding final_status
  end_command s status = do
    token ← elim s.cancellation_requested [ true ↦ pure true | false ↦ ask host.is_cancelled ]
    passed ← elim (token || s.timeout_requested) [
      | true ↦ pure s.timeout_requested
      | false ↦ ask host.is_late
    ]
    let is_cancelled = s.cancellation_requested || token
    let is_late = not is_cancelled && (s.timeout_requested || passed)
    published ← elim (text_eq (raw_status is_cancelled is_late status) (text "completed")) [
      | true ↦ ask host.publish
      | false ↦ pure (ok tt)
    ]
    let (final, code) = final_status s token passed status published
    pure (record {
      log = s;
      status = final;
      exit_code = code;
      stderr = elim published [
        | ok t ↦ s.stderr
        | err e ↦ s.stderr ++ bytes (text "git publish failed: " ++ (to_string e ++ text "\n"))
      ];
    })

  unfoldable pub command_result :
      (id : Text)
      → JobSpec
      → Ending
      → (image : Option Text) → List Text × Option Text
      → Run JobResult
  unfolding failure_of
  command_result id spec ending image (files, directory) = do
    started_at ← ask host.clock
    finished_at ← ask host.clock
    elapsed ← ask host.elapsed
    dropped ← look (λ w. w.log.dropped_log_chunks)
    let out = host.from_utf8_lossy ending.log.stdout
    let error = host.from_utf8_lossy ending.stderr
    pure (record {
      job_id = spec.id;
      attempt = spec.attempt;
      status = ending.status;
      exit_code = ending.exit_code;
      started_at = started_at;
      finished_at = finished_at;
      duration_ms = elapsed;
      log_truncated = ending.log.truncated || ltb 0 dropped;
      stdout = out;
      stderr = error;
      error_summary = error_summary ending.status out error;
      failure = failure_of ending.status (text "command_failed") (text "Docker command failed");
      failed_phase =
          if text_eq ending.status (text "completed") then none else some (text "command");
      artifacts = files;
      artifact_dir = directory;
      sandbox = record { executor = text "docker"; container_id = id; image_id = image };
    })

  -- From the end of the container to the result.
  unfoldable pub finish_command :
      (id : Text) → JobSpec → Network → LogState → (status : ℤ) → Run JobResult
  unfolding end_command command_result
  finish_command id spec network log status = do
    ending ← end_command log status
    collected ←
        collect_artifacts config host spec ending.status (some (text "command")) ending.log.stdout
          ending.stderr
    record_state config host spec (from_str ending.status)
    image ← destroy config host id [] network spec
    command_result id spec ending image collected

  unfoldable pub run_command : JobSpec → Resources → Run JobResult
  unfolding headless_opencode_environment command_container container_logs launch_command
      inspect_container finish_command
  run_command spec resources = do
    directory ← prepare_job config host spec
    network ← open_network config host spec
    env ← lift (environment_for_job host.environment spec config)
    expires_at ← ask (host.later resources.timeout_seconds)
    id ←
        launch_command
          (command_container config host directory (mode_of network) expires_at
            (headless_opencode_environment env spec.command) spec resources)
          spec network
    turns ← ask host.logs
    log ← container_logs id no_log turns
    status ← inspect_container id network
    record_state config host spec collecting
    finish_command id spec network log status

  -- `canonicalize` is that of the policy.
  unfoldable pub run : (canonicalize : Text → Option Text) → JobSpec → Run JobResult
  unfolding begin_job run_command
  run canonicalize spec = do
    update (begin_job spec)
    resources ← lift (Policy.validate canonicalize spec config false)
    elim spec.workflow [
      | some workflow ↦ run_workflow config host spec workflow resources
      | none ↦ run_command spec resources
    ]
