-- ===== src/Docker/Job.antt =====
-- The steps that `run` and `run_workflow` share: the states of a job, its network, the configuration
-- of its container, the collection of its results.
use ai_kodu_runner.Base.{
  ℕ, ◌*◌, Text, text, text_eq, decimal, true, false, not, ◌&&◌, Option, none, some, List, [], ◌∷◌,
  ◌++◌, is_empty, if◌then◌else◌, Result, ok, err,
}
use ai_kodu_runner.Config.{RunnerConfig}
use ai_kodu_runner.Protocol.{Resources, JobSpec, FailureInfo, cancellation, timeout, execution}
use ai_kodu_runner.Lifecycle.{State, received, preparing}
use ai_kodu_runner.Journal.{transition}
use ai_kodu_runner.Artifacts.{destination}
use ai_kodu_runner.Docker.Redaction.{
  Json, null, number, string, object, no_fields, field, redact_diagnostic_value,
  redact_diagnostic_bytes,
}
use ai_kodu_runner.Docker.Engine.{
  HostConfig, Host, Run, pure, fail, ask, ask_result, journaled, update, ◌>>=◌, ◌>>◌,
}
use ai_kodu_runner.Docker.Resources.{
  scale, base_labels, runtime_tmpfs, pull_or_fail, create_network,
}

-- The profile of the job's container.
unfoldable pub job_host_config :
    Host → (directory : Text) → (network_mode : Text) → JobSpec → Resources → HostConfig
unfolding scale runtime_tmpfs
job_host_config host directory network_mode spec resources = record {
  binds = (directory ++ text ":/workspace") ∷ [];
  network_mode = some network_mode;
  memory = scale resources.memory_mb (1024 * 1024);
  nano_cpus = host.to_nano_cpus resources.cpu;
  pids_limit = resources.pids;
  cap_drop = text "ALL" ∷ [];
  security_opt = text "no-new-privileges:true" ∷ [];
  readonly_rootfs = not spec.writable_rootfs;
  tmpfs = runtime_tmpfs;
}

unfoldable pub job_labels : RunnerConfig → JobSpec → List (Text × Text)
unfolding base_labels
job_labels config spec =
    base_labels config spec.id ++ (text "ai-kodu-runner.attempt", decimal spec.attempt) ∷ []

-- The network of a job: its name, and its identifier where the job asks for one.
pub record Network : Type 0 where
  pub name : Text
  pub id : Option Text

abbrev pub mode_of : Network → Text
mode_of network = elim network.id [ none ↦ text "none" | some id ↦ network.name ]

unfoldable pub failure_of : (status : Text) → (code message : Text) → Option FailureInfo
failure_of status code message =
    if text_eq status (text "completed")
    then none
    else if text_eq status (text "cancelled")
    then some (record {
      kind = cancellation;
      code = text "cancelled";
      message = text "execution cancelled";
    })
    else if text_eq status (text "timed_out")
    then some
        (record { kind = timeout; code = text "timeout"; message = text "execution timed out" })
    else some (record { kind = execution; code = code; message = message })

module _ (config : RunnerConfig) (host : Host) where
  unfoldable pub record_state : JobSpec → State → Run (Unit {0})
  record_state spec state = do
    now ← ask host.clock
    journaled (transition now spec.id spec.attempt state)

  -- Up to the pulled image: the directory of the workspace.
  unfoldable pub prepare_job : JobSpec → Run Text
  unfolding record_state
  prepare_job spec = do
    ask_result host.open_journal
    record_state spec received
    record_state spec preparing
    directory ← ask_result host.prepare
    pull_or_fail config host spec.image
    pure directory

  unfoldable pub open_network : JobSpec → Run Network
  open_network spec = do
    uuid ← ask host.uuid
    let name = text "ai-kodu-runner-net-" ++ uuid
    elim (text_eq spec.network.mode (text "bridge")) [
      | true ↦ do id ← create_network host; pure (record { name = name; id = some id })
      | false ↦ pure (record { name = name; id = none })
    ]

  unfoldable pub write_diagnostic : (name : Text) → Result (List ℕ) → Run (Unit {0})
  write_diagnostic name (err e) = fail e
  write_diagnostic name (ok content) = do
    ask_result host.write_file
    update (λ w. record w { diagnostics = w.diagnostics ++ (name, content) ∷ [] })

  abbrev text_or_null : Option Text → Json
  text_or_null none = null
  text_or_null (some t) = string t

  unfoldable pub meta_value : JobSpec → (phase : Option Text) → Json
  meta_value spec phase = object (
      field (text "job_id") (string spec.id) (
        field (text "attempt") (number (decimal spec.attempt)) (
          field (text "image") (string spec.image) (
            field (text "network") (string spec.network.mode)
              (field (text "phase") (text_or_null phase) no_fields)))))

  abbrev print_redacted : Result Json → Result (List ℕ)
  print_redacted (err e) = err e
  print_redacted (ok job) = host.to_vec_pretty (redact_diagnostic_value job)

  unfoldable pub write_failure_diagnostics :
      JobSpec → (phase : Option Text) → (stdout stderr : List ℕ) → Run (Unit {0})
  unfolding write_diagnostic meta_value
  write_failure_diagnostics spec phase stdout stderr =
      let redacted =
        redact_diagnostic_bytes host.from_utf8_lossy host.replace host.environment spec in
      do
        ask_result host.write_file
        write_diagnostic (text "job.json") (print_redacted (host.to_value spec))
        write_diagnostic (text "meta.json") (host.to_vec_pretty (meta_value spec phase))
        write_diagnostic (text "stdout.log") (ok (redacted stdout))
        write_diagnostic (text "stderr.log") (ok (redacted stderr))

  -- The exported files and their directory; a job that is not completed has its diagnostics written
  -- and exported, so its patterns are not empty.
  unfoldable pub collect_artifacts :
      JobSpec
      → (status : Text) → (phase : Option Text) → (stdout stderr : List ℕ)
      → Run (List Text × Option Text)
  unfolding write_failure_diagnostics
  collect_artifacts spec status phase stdout stderr = do
    let completed = text_eq status (text "completed")
    elim completed [ true ↦ pure tt | false ↦ write_failure_diagnostics spec phase stdout stderr ]
    elim (completed && is_empty spec.artifacts) [
      | true ↦ pure ([], none)
      | false ↦ do
        files ← ask_result host.export
        pure (
          elim files [ none ↦ [] | some names ↦ names ],
          some (destination config.work_dir spec.id spec.attempt),
        )
    ]
