-- ===== src/Docker/Confined.antt =====
-- The containers that `run` makes, whatever it results in: those of the job and of its services.
use ai_kodu_runner.Base.{
  ℤ, Text, text, false, Option, none, some, List, [], ◌++◌, ok, ◌≡◌, refl, sym, subst, All,
}
use ai_kodu_runner.Config.{RunnerConfig}
use ai_kodu_runner.Protocol.{Resources, JobSpec, WorkflowSpec}
use ai_kodu_runner.Lifecycle.{collecting, from_str}
use ai_kodu_runner.Policy
use ai_kodu_runner.Policy.{environment_for_job}
use ai_kodu_runner.Policy.Admission.{validate_with_context_iff}
use ai_kodu_runner.Docker.Output.{LogState, no_log}
use ai_kodu_runner.Docker.Engine.{ContainerConfig, Host, World}
use ai_kodu_runner.Docker.Job.{Network, mode_of}
use ai_kodu_runner.Docker.RunWorkflow.{workflow_container, run_workflow}
use ai_kodu_runner.Docker.RunCommand.{
  command_container, headless_opencode_environment, finish_command, run_command, begin_job, run,
}
use ai_kodu_runner.Docker.Destroyed.{collect_artifacts-IsQuiet}
use ai_kodu_runner.Docker.Ended.{container_logs-IsQuiet, end_command-IsQuiet}
use ai_kodu_runner.Docker.Ends.{Ends-lift}
use ai_kodu_runner.Docker.Makes.{
  Makes, ask-Makes, quiet-Makes, lift-Makes, option-Makes, >>=-given-Makes, >>=-Makes, update-Makes,
}
use ai_kodu_runner.Docker.Profile.{IsConfined, resources, own-IsConfined}
use ai_kodu_runner.Docker.Started.{Safe, record_state-Safe, workflow_services-Safe}
use ai_kodu_runner.Docker.Launched.{
  opened-Safe, launch-Safe, launch_command-Safe, run_in_container-Safe, destroy-Safe,
  inspect_container-Safe, workflow_result-Safe, command_result-Safe,
}

module _ (config : RunnerConfig) (host : Host) (spec : JobSpec) where
  finish_command-Safe :
      (id : Text) (network : Network) (log : LogState) (status : ℤ)
      → Safe config host spec (finish_command config host id spec network log status)
  unfolding finish_command
  finish_command-Safe id network log status =
      >>=-Makes _ _ _ (quiet-Makes _ _ (end_command-IsQuiet config host log status)) (λ ending.
        >>=-Makes _ _ _
          (quiet-Makes _ _ (
            collect_artifacts-IsQuiet config host spec ending.status (some (text "command"))
              ending.log.stdout ending.stderr))
          (λ collected.
            >>=-Makes _ _ _ (record_state-Safe config host spec (from_str ending.status)) (λ _.
              >>=-Makes _ _ _ (destroy-Safe config host spec id [] network)
                (λ image. command_result-Safe config host spec id ending image collected))))

  run_command-Safe :
      Safe config host spec (run_command config host spec (resources config host spec))
  unfolding run_command command_container
  run_command-Safe = opened-Safe config host spec _ (λ directory network prepared fit.
      >>=-Makes _ _ _ (lift-Makes _ (environment_for_job host.environment spec config)) (λ env.
        >>=-Makes _ _ _ (ask-Makes _ _) (λ expires_at.
          >>=-Makes _ _ _
            (launch_command-Safe config host spec _ network (
              own-IsConfined config host spec
                (command_container config host directory (mode_of network) expires_at
                  (headless_opencode_environment env spec.command) spec
                  (resources config host spec))
                directory network prepared fit refl refl))
            (λ id. >>=-Makes _ _ _ (ask-Makes _ host.logs) (λ turns.
              >>=-Makes _ _ _ (quiet-Makes _ _ (container_logs-IsQuiet config host id turns no_log))
                (λ log.
                  >>=-Makes _ _ _ (inspect_container-Safe config host spec id network) (λ status.
                    >>=-Makes _ _ _ (record_state-Safe config host spec collecting)
                      (λ _. finish_command-Safe id network log status))))))))

  run_workflow-Safe :
      (workflow : WorkflowSpec)
      → Safe config host spec (run_workflow config host spec workflow (resources config host spec))
  unfolding run_workflow workflow_container
  run_workflow-Safe workflow = opened-Safe config host spec _ (λ directory network prepared fit.
      >>=-Makes _ _ _ (lift-Makes _ (environment_for_job host.environment spec config)) (λ env.
        >>=-Makes _ _ _ (workflow_services-Safe config host spec workflow network fit) (λ services.
          >>=-Makes _ _ _
            (launch-Safe config host spec _ services network (
              own-IsConfined config host spec
                (workflow_container config host directory (mode_of network) env spec
                  (resources config host spec))
                directory network prepared fit refl refl))
            (λ id. >>=-Makes _ _ _ (run_in_container-Safe config host spec id workflow) (λ flow.
              >>=-Makes _ _ _ (record_state-Safe config host spec collecting) (λ _.
                >>=-Makes _ _ _
                  (quiet-Makes _ _ (
                    collect_artifacts-IsQuiet config host spec flow.final_status flow.failed_phase
                      flow.stdout flow.stderr))
                  (λ collected.
                    >>=-Makes _ _ _
                      (record_state-Safe config host spec (from_str flow.final_status))
                      (λ _.
                        >>=-Makes _ _ _ (destroy-Safe config host spec id services network)
                          (λ image.
                            workflow_result-Safe config host spec id flow image collected)))))))))

  admitted-Safe :
      (canonicalize : Text → Option Text) (given : Resources)
      → Policy.validate canonicalize spec config false ≡ ok given
      → Safe config host spec (elim spec.workflow [
        | some workflow ↦ run_workflow config host spec workflow given
        | none ↦ run_command config host spec given
      ])
  unfolding Policy.validate
  admitted-Safe canonicalize given h =
      let same : given ≡ resources config host spec =
        ((validate_with_context_iff canonicalize spec config _ given).0 h).1 in
      subst
        (λ r. Safe config host spec (elim spec.workflow [
          | some workflow ↦ run_workflow config host spec workflow r
          | none ↦ run_command config host spec r
        ]))
        (sym same) (option-Makes _ spec.workflow _ _ run_command-Safe run_workflow-Safe)

  run-Safe :
      (canonicalize : Text → Option Text)
      → Safe config host spec (run config host canonicalize spec)
  unfolding run begin_job
  run-Safe canonicalize = >>=-Makes _ _ _ (update-Makes _ (begin_job spec) (λ w. refl)) (λ _.
      >>=-given-Makes _ _ _ (λ r. Policy.validate canonicalize spec config false ≡ ok r)
        (lift-Makes _ _) (λ w. Ends-lift _ w _ (λ r h. h)) (admitted-Safe canonicalize))

  -- Whatever a run results in, every container that it has made has the memory, the cpu count and the
  -- processes of the clamped resources and gains no privilege; and it is either the job's own, of the
  -- job's image, with a directory that was prepared as the only mount, no capability, a root file
  -- system that is read-only unless the job asks to write it, and no network unless the job asks for
  -- the bridge; or a service's, of a job that asks for the bridge, with no mount.
  pub run-IsConfined :
      (canonicalize : Text → Option Text) (w : World)
      → (new : List ContainerConfig) × ((run config host canonicalize spec w).1.made
          ≡ w.made ++ new)
        × All (IsConfined config host spec) new
  unfolding Makes
  run-IsConfined canonicalize w = run-Safe canonicalize w
