-- ===== src/Docker/Launched.antt =====
-- The container of a job, from its launch to the result, as far as the containers that are made go.
use ai_kodu_runner.Base.{ℕ, Text, text, Option, List}
use ai_kodu_runner.Config.{RunnerConfig}
use ai_kodu_runner.Protocol.{JobSpec, WorkflowSpec}
use ai_kodu_runner.Lifecycle.{running, destroying, destroyed}
use ai_kodu_runner.Docker.Flow.{Flow}
use ai_kodu_runner.Docker.Engine.{ContainerConfig, Host, Run, ask, look, pure, ◌>>=◌}
use ai_kodu_runner.Docker.Job.{Network, prepare_job, open_network}
use ai_kodu_runner.Docker.RunWorkflow.{launch, run_in_container, destroy, workflow_result}
use ai_kodu_runner.Docker.RunCommand.{Ending, launch_command, inspect_container, command_result}
use ai_kodu_runner.Docker.Frame.{dropped-IsQuiet}
use ai_kodu_runner.Docker.Quiet.{run_commands-IsQuiet, write_feedback-IsQuiet}
use ai_kodu_runner.Docker.Makes.{
  ask-Makes, ask_result-Makes, quiet-Makes, pure-Makes, on_error-Makes, result-Makes,
  >>=-given-Makes, >>=-Makes, create_container-Makes, remove_container-Makes,
  remove_containers-Makes, remove_network-Makes, makes,
}
use ai_kodu_runner.Docker.Profile.{IsConfined, IsPrepared, IsFit}
use ai_kodu_runner.Docker.Started.{
  Safe, record_state-Safe, prepare_job-Safe, prepare_job-IsPrepared, open_network-Safe,
  open_network-IsFit,
}

module _ (config : RunnerConfig) (host : Host) (spec : JobSpec) where
  -- Up to the network, which the rest may take as the job asks for it, in a prepared directory.
  pub opened-Safe {ℓ} :
      {B : Type ℓ} (f : Text → Network → Run B)
      → ((d : Text) (n : Network)
          → IsPrepared config host spec d
          → IsFit config host spec n
          → Safe config host spec (f d n))
      → Safe config host spec
          (prepare_job config host spec >>= λ d. (open_network config host spec >>= λ n. f d n))
  opened-Safe f rest =
      >>=-given-Makes _ _ _ (IsPrepared config host spec) (prepare_job-Safe config host spec)
        (prepare_job-IsPrepared config host spec)
        (λ d prepared.
          >>=-given-Makes _ _ _ (IsFit config host spec) (open_network-Safe config host spec)
            (open_network-IsFit config host spec) (λ n fit. rest d n prepared fit))

  pub launch-Safe :
      (c : ContainerConfig) (services : List Text) (network : Network)
      → IsConfined config host spec c
      → Safe config host spec (launch config host c services network)
  unfolding launch
  launch-Safe c services network h =
      >>=-Makes _ _ _
        (on_error-Makes _ _ _ (create_container-Makes _ host c h) (
          >>=-Makes _ _ _ (remove_containers-Makes _ host services)
            (λ _. remove_network-Makes _ host network.id)))
        (λ id. search makes)

  pub launch_command-Safe :
      (c : ContainerConfig) (network : Network)
      → IsConfined config host spec c
      → Safe config host spec (launch_command config host c spec network)
  unfolding launch_command
  launch_command-Safe c network h =
      >>=-Makes _ _ _
        (on_error-Makes _ _ _ (create_container-Makes _ host c h)
          (remove_network-Makes _ host network.id))
        (λ id. >>=-Makes _ _ _ (record_state-Safe config host spec running) (λ _. search makes))

  pub run_in_container-Safe :
      (id : Text) (workflow : WorkflowSpec)
      → Safe config host spec (run_in_container config host id spec workflow)
  unfolding run_in_container
  run_in_container-Safe id workflow = >>=-Makes _ _ _ (ask_result-Makes _ host.feedback_path) (λ _.
      >>=-Makes _ _ _
        (quiet-Makes _ _ (write_feedback-IsQuiet config host (text "No verifier feedback yet.\n")))
        (λ _.
          >>=-Makes _ _ _ (record_state-Safe config host spec running)
            (λ _. quiet-Makes _ _ (run_commands-IsQuiet config host id workflow))))

  pub destroy-Safe :
      (id : Text) (services : List Text) (network : Network)
      → Safe config host spec (destroy config host id services network spec)
  unfolding destroy
  destroy-Safe id services network =
      >>=-Makes _ _ _ (record_state-Safe config host spec destroying) (λ _.
        >>=-Makes _ _ _ (ask-Makes _ host.image_of) (λ image.
          >>=-Makes _ _ _ (remove_container-Makes _ host id) (λ _.
            >>=-Makes _ _ _ (remove_containers-Makes _ host services) (λ _.
              >>=-Makes _ _ _ (remove_network-Makes _ host network.id) (λ _.
                >>=-Makes _ _ _ (record_state-Safe config host spec destroyed)
                  (λ _. pure-Makes _ image))))))

  pub inspect_container-Safe :
      (id : Text) (network : Network)
      → Safe config host spec (inspect_container config host id network)
  unfolding inspect_container
  inspect_container-Safe id network =
      >>=-Makes _ _ _ (ask-Makes _ host.exit_code)
        (λ answer. result-Makes _ answer _ _ (λ code. pure-Makes _ _) (λ e. search makes))

  -- What the two kinds of result read last.
  measured-Safe {ℓ} :
      {A : Type ℓ} (f : Text → Text → ℕ → ℕ → A)
      → Safe config host spec (
          ask host.clock >>= λ a.
          (ask host.clock >>= λ b.
          (ask host.elapsed >>= λ c.
          (look (λ w. w.log.dropped_log_chunks) >>= λ d. pure (f a b c d)))))
  measured-Safe f = >>=-Makes _ _ _ (ask-Makes _ host.clock) (λ a.
      >>=-Makes _ _ _ (ask-Makes _ host.clock) (λ b.
        >>=-Makes _ _ _ (ask-Makes _ host.elapsed)
          (λ c. >>=-Makes _ _ _ (quiet-Makes _ _ dropped-IsQuiet) (λ d. pure-Makes _ (f a b c d)))))

  pub workflow_result-Safe :
      (id : Text) (flow : Flow) (image : Option Text) (collected : List Text × Option Text)
      → Safe config host spec (workflow_result config host id spec flow image collected)
  unfolding workflow_result
  workflow_result-Safe id flow image (files, directory) = measured-Safe _

  pub command_result-Safe :
      (id : Text) (ending : Ending) (image : Option Text) (collected : List Text × Option Text)
      → Safe config host spec (command_result config host id spec ending image collected)
  unfolding command_result
  command_result-Safe id ending image (files, directory) = measured-Safe _
