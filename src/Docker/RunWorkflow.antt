-- ===== src/Docker/RunWorkflow.antt =====
-- `run_workflow` as a whole: the preparation, the network, the services and the container of a job,
-- its commands, its results, and the removal of what it has made.
use ai_kodu_runner.Base.{
  pos, ltb, Text, text, text_eq, true, false, ◌||◌, Option, none, some, List, [], ◌∷◌, is_empty,
  if◌then◌else◌, bail,
}
use ai_kodu_runner.Config.{RunnerConfig}
use ai_kodu_runner.Protocol.{Resources, JobSpec, JobResult, WorkflowSpec, error_summary}
use ai_kodu_runner.Lifecycle.{running, collecting, destroying, destroyed, from_str}
use ai_kodu_runner.Policy.{environment_for_job}
use ai_kodu_runner.Docker.Engine.{
  ContainerConfig, Host, Run, pure, fail, lift, on_error, look, ask, ask_result, ◌>>=◌, ◌>>◌,
}
use ai_kodu_runner.Docker.Resources.{
  create_container, start_container, remove_container, remove_containers, remove_network,
}
use ai_kodu_runner.Docker.Services.{start_services}
use ai_kodu_runner.Docker.Flow.{Flow, write_feedback}
use ai_kodu_runner.Docker.Workflow.{run_commands}
use ai_kodu_runner.Docker.Job.{
  Network, mode_of, job_host_config, job_labels, failure_of, record_state, prepare_job,
  open_network, collect_artifacts,
}

unfoldable pub workflow_container :
    RunnerConfig
    → Host
    → (directory network_mode : Text) → (env : List Text) → JobSpec
    → Resources
    → ContainerConfig
unfolding job_host_config job_labels
workflow_container config host directory network_mode env spec resources = record {
  image = spec.image;
  cmd = text "sleep" ∷ text "infinity" ∷ [];
  working_dir = none;
  env = env;
  aliases = [];
  healthcheck = none;
  labels = job_labels config spec;
  host_config = job_host_config host directory network_mode spec resources;
}

module _ (config : RunnerConfig) (host : Host) where
  -- The services need a network; an error removes it.
  unfoldable pub workflow_services : JobSpec → WorkflowSpec → Resources → Network → Run (List Text)
  workflow_services spec workflow resources network = elim network.id [
    | some id ↦
        on_error (start_services config host spec.id resources workflow.services)
          (remove_network host (some id))
    | none ↦ elim (is_empty workflow.services) [
      | true ↦ pure []
      | false ↦ fail (bail (text "workflow services require bridge networking"))
    ]
  ]

  -- The container, created and started; an error removes what the job has made.
  unfoldable pub launch : ContainerConfig → (services : List Text) → Network → Run Text
  launch container services network = do
    id ←
        on_error (create_container host container)
          (do remove_containers host services; remove_network host network.id)
    on_error (start_container host id) (do
      remove_container host id
      remove_containers host services
      remove_network host network.id)
    pure id

  unfoldable pub run_in_container : (id : Text) → JobSpec → WorkflowSpec → Run Flow
  unfolding record_state
  run_in_container id spec workflow = do
    ask_result host.feedback_path
    write_feedback config host (text "No verifier feedback yet.\n")
    record_state config host spec running
    run_commands config host id workflow

  -- The container, the services and the network of a job that has ended.
  unfoldable pub destroy :
      (id : Text) → (services : List Text) → Network → JobSpec → Run (Option Text)
  unfolding record_state
  destroy id services network spec = do
    record_state config host spec destroying
    image ← ask host.image_of
    remove_container host id
    remove_containers host services
    remove_network host network.id
    record_state config host spec destroyed
    pure image

  unfoldable pub workflow_result :
      (id : Text) → JobSpec → Flow → (image : Option Text) → List Text × Option Text → Run JobResult
  unfolding failure_of
  workflow_result id spec flow image (files, directory) = do
    started_at ← ask host.clock
    finished_at ← ask host.clock
    elapsed ← ask host.elapsed
    dropped ← look (λ w. w.log.dropped_log_chunks)
    let completed = text_eq flow.final_status (text "completed")
    let stopped =
        text_eq flow.final_status (text "cancelled") || text_eq flow.final_status (text "timed_out")
    pure (record {
      job_id = spec.id;
      attempt = spec.attempt;
      status = flow.final_status;
      exit_code = if stopped then none else some (if completed then pos 0 else pos 1);
      started_at = started_at;
      finished_at = finished_at;
      duration_ms = elapsed;
      log_truncated = flow.truncated || ltb 0 dropped;
      stdout = host.from_utf8_lossy flow.stdout;
      stderr = host.from_utf8_lossy flow.stderr;
      error_summary =
          error_summary flow.final_status (host.from_utf8_lossy flow.stdout)
            (host.from_utf8_lossy flow.stderr);
      failure = failure_of flow.final_status (text "workflow_failed") (text "workflow failed");
      failed_phase =
          if completed
          then none
          else elim flow.failed_phase [ none ↦ some (text "workflow") | some p ↦ some p ];
      artifacts = files;
      artifact_dir = directory;
      sandbox = record { executor = text "docker"; container_id = id; image_id = image };
    })

  unfoldable pub run_workflow : JobSpec → WorkflowSpec → Resources → Run JobResult
  unfolding lift workflow_container workflow_services launch run_in_container destroy
      workflow_result
  run_workflow spec workflow resources = do
    directory ← prepare_job config host spec
    network ← open_network config host spec
    env ← lift (environment_for_job host.environment spec config)
    services ← workflow_services spec workflow resources network
    id ←
        launch (workflow_container config host directory (mode_of network) env spec resources)
          services network
    flow ← run_in_container id spec workflow
    record_state config host spec collecting
    collected ←
        collect_artifacts config host spec flow.final_status flow.failed_phase flow.stdout
          flow.stderr
    record_state config host spec (from_str flow.final_status)
    image ← destroy id services network spec
    workflow_result id spec flow image collected
