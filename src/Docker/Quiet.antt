-- ===== src/Docker/Quiet.antt =====
-- The commands of a workflow, step by step: none touches the journal, the containers or the networks.
use ai_kodu_runner.Base.{
  ℕ, zero, suc, ◌+◌, Text, not, ◌&&◌, none, some, is_some, is_zero, List, [], ◌∷◌, ok, err, ◌==◌,
}
use ai_kodu_runner.Config.{RunnerConfig}
use ai_kodu_runner.Protocol.{CommandSpec, VerifierSpec, WorkflowSpec}
use ai_kodu_runner.Docker.Engine.{ExecutionTermination, ExecResult, Host, Run, ◌>>=◌}
use ai_kodu_runner.Docker.Flow.{Flow, Round, write_feedback, capture}
use ai_kodu_runner.Docker.Setup.{interruption, setup_loop, note_setup, initialize_agent, initialize}
use ai_kodu_runner.Docker.Iterations.{
  verifier_loop, mandatory_loop, publish_command, publish_round, check_round, is_halted, iterations,
}
use ai_kodu_runner.Docker.Workflow.{late_termination, conclude, run_commands}
use ai_kodu_runner.Docker.Engine.{PullTurn}
use ai_kodu_runner.Docker.Resources.{pull_loop, pulls_always, pull, pull_or_fail}
use ai_kodu_runner.Docker.Frame.{
  IsQuiet, >>=-IsQuiet, ask-IsQuiet, test-IsQuiet, option-IsQuiet, quiet, fail-IsQuiet,
}

module _ (config : RunnerConfig) (host : Host) where
  pull_loop-IsQuiet : (turns : List PullTurn) → IsQuiet (pull_loop config host turns)
  unfolding pull_loop
  pull_loop-IsQuiet [] = search quiet
  pull_loop-IsQuiet (PullTurn.cancels ∷ rest) = search quiet
  pull_loop-IsQuiet (PullTurn.expires ∷ rest) = search quiet
  pull_loop-IsQuiet (PullTurn.item (ok tt) ∷ rest) = pull_loop-IsQuiet rest
  pull_loop-IsQuiet (PullTurn.item (err e) ∷ rest) = fail-IsQuiet _ _

  pub pull_or_fail-IsQuiet : (image : Text) → IsQuiet (pull_or_fail config host image)
  unfolding pull_or_fail pull
  pull_or_fail-IsQuiet image =
      >>=-IsQuiet _ _
        (>>=-IsQuiet _ _ (ask-IsQuiet host.is_cancelled) (λ now.
          test-IsQuiet now _ _ (search quiet) (
            >>=-IsQuiet _ _ (ask-IsQuiet host.is_late) (λ late.
              test-IsQuiet late _ _ (search quiet) (
                test-IsQuiet (pulls_always config host) _ _
                  (>>=-IsQuiet _ _ (ask-IsQuiet (host.pull image))
                    (λ turns. pull_loop-IsQuiet turns))
                  (search quiet))))))
        (λ ended. option-IsQuiet ended _ _ (search quiet) (λ reason. fail-IsQuiet _ _))

  pub write_feedback-IsQuiet : (t : Text) → IsQuiet (write_feedback config host t)
  unfolding write_feedback
  write_feedback-IsQuiet t = search quiet

  capture-IsQuiet :
      (id phase : Text) (c : CommandSpec) (flow : Flow)
      → IsQuiet (capture config host id phase c flow)
  unfolding capture
  capture-IsQuiet id phase c flow = search quiet

  interruption-IsQuiet : IsQuiet (interruption config host)
  unfolding interruption
  interruption-IsQuiet = >>=-IsQuiet _ _ (ask-IsQuiet host.is_cancelled) (λ now.
      test-IsQuiet now _ _ (search quiet) (
        >>=-IsQuiet _ _ (ask-IsQuiet host.is_late)
          (λ late. test-IsQuiet late _ _ (search quiet) (search quiet))))

  -- A command, then what is done by its termination.
  captured-IsQuiet {ℓ} :
      {A : Type ℓ} (id phase : Text) (c : CommandSpec) (flow : Flow)
      (ended : ExecResult → Flow → ExecutionTermination → Run A) (next : ExecResult → Flow → Run A)
      → ((r : ExecResult) (f : Flow) (t : ExecutionTermination) → IsQuiet (ended r f t))
      → ((r : ExecResult) (f : Flow) → IsQuiet (next r f))
      → IsQuiet (
          capture config host id phase c flow >>= λ (r, after). elim r.termination [
            | some t ↦ ended r after t
            | none ↦ next r after
          ])
  captured-IsQuiet id phase c flow ended next p q =
      >>=-IsQuiet _ _ (capture-IsQuiet id phase c flow)
        (λ (r, after). option-IsQuiet r.termination _ _ (q r after) (p r after))

  setup_loop-IsQuiet :
      (id : Text) (cs : List CommandSpec) (flow : Flow)
      → IsQuiet (setup_loop config host id cs flow)
  unfolding setup_loop
  setup_loop-IsQuiet id [] flow = search quiet
  setup_loop-IsQuiet id (c ∷ cs) flow = >>=-IsQuiet _ _ interruption-IsQuiet (λ stop.
      option-IsQuiet stop _ _
        (captured-IsQuiet id _ c flow _ _ (λ r f t. search quiet)
          (λ r f. setup_loop-IsQuiet id cs _))
        (λ reason. search quiet))

  note_setup-IsQuiet : (flow : Flow) → IsQuiet (note_setup config host flow)
  unfolding note_setup
  note_setup-IsQuiet flow =
      test-IsQuiet (not (is_some flow.termination) && not flow.setup_ok) _ _
        (write_feedback-IsQuiet _) (search quiet)

  initialize_agent-IsQuiet :
      (id : Text) (c : CommandSpec) (flow : Flow) → IsQuiet (initialize_agent config host id c flow)
  unfolding initialize_agent
  initialize_agent-IsQuiet id c flow =
      captured-IsQuiet id _ c flow _ _ (λ r f t. search quiet)
        (λ r f.
          test-IsQuiet (is_zero r.status) _ _ (search quiet)
            (>>=-IsQuiet _ _ (write_feedback-IsQuiet _) (λ _. search quiet)))

  initialize-IsQuiet :
      (id : Text) (workflow : WorkflowSpec) (flow : Flow)
      → IsQuiet (initialize config host id workflow flow)
  unfolding initialize
  initialize-IsQuiet id workflow flow = test-IsQuiet (is_some flow.termination) _ _ (search quiet) (
      >>=-IsQuiet _ _ (ask-IsQuiet host.is_cancelled) (λ now.
        test-IsQuiet (not now && flow.setup_ok) _ _
          (option-IsQuiet workflow.initialize _ _ (search quiet)
            (λ c. initialize_agent-IsQuiet id c flow))
          (search quiet)))

  verifier_loop-IsQuiet :
      (id : Text) (vs : List VerifierSpec) (round : Round)
      → IsQuiet (verifier_loop config host id vs round)
  unfolding verifier_loop
  verifier_loop-IsQuiet id [] round = search quiet
  verifier_loop-IsQuiet id (v ∷ vs) round =
      captured-IsQuiet id _ _ round.flow _ _ (λ r f t. search quiet)
        (λ r f. verifier_loop-IsQuiet id vs _)

  mandatory_loop-IsQuiet :
      (id : Text) (vs : List CommandSpec) (round : Round)
      → IsQuiet (mandatory_loop config host id vs round)
  unfolding mandatory_loop
  mandatory_loop-IsQuiet id [] round = search quiet
  mandatory_loop-IsQuiet id (v ∷ vs) round =
      option-IsQuiet round.flow.termination _ _
        (captured-IsQuiet id _ v round.flow _ _ (λ r f t. search quiet)
          (λ r f. mandatory_loop-IsQuiet id vs _))
        (λ reason. search quiet)

  publish_round-IsQuiet :
      (id : Text) (workflow : WorkflowSpec) (round : Round)
      → IsQuiet (publish_round config host id workflow round)
  unfolding publish_round publish_command
  publish_round-IsQuiet id workflow round =
      test-IsQuiet (not (is_some round.flow.termination) && round.all_passed) _ _
        (option-IsQuiet workflow.publish _ _ (search quiet) (λ c.
          captured-IsQuiet id _ c round.flow _ _ (λ r f t. search quiet) (λ r f. search quiet)))
        (search quiet)

  check_round-IsQuiet :
      (id : Text) (workflow : WorkflowSpec) (round : Round)
      → IsQuiet (check_round config host id workflow round)
  unfolding check_round
  check_round-IsQuiet id workflow round =
      search (quiet, verifier_loop-IsQuiet, mandatory_loop-IsQuiet, publish_round-IsQuiet)

  iterations-IsQuiet :
      (id : Text) (workflow : WorkflowSpec) (left iteration : ℕ) (flow : Flow)
      → IsQuiet (iterations config host id workflow left iteration flow)
  unfolding iterations is_halted
  iterations-IsQuiet id workflow zero iteration flow = search quiet
  iterations-IsQuiet id workflow (suc left) iteration flow =
      >>=-IsQuiet _ _ (test-IsQuiet flow.setup_ok _ _ (search quiet) (search quiet)) (λ halted.
        test-IsQuiet halted _ _ (search quiet) (
          captured-IsQuiet id _ workflow.agent flow _ _ (λ r f t. search quiet)
            (λ r f. >>=-IsQuiet _ _ (check_round-IsQuiet id workflow _) (λ round.
              test-IsQuiet (not (is_some round.flow.termination) && round.all_passed) _ _
                (search quiet)
                (>>=-IsQuiet _ _ (write_feedback-IsQuiet _) (λ _.
                  test-IsQuiet (iteration == workflow.max_iterations) _ _ (search quiet)
                    (iterations-IsQuiet id workflow left (iteration + 1) round.flow)))))))

  conclude-IsQuiet : (id : Text) (flow : Flow) → IsQuiet (conclude config host id flow)
  unfolding conclude late_termination
  conclude-IsQuiet id flow =
      >>=-IsQuiet _ _
        (option-IsQuiet flow.termination _ _
          (>>=-IsQuiet _ _ (ask-IsQuiet host.is_cancelled)
            (λ now. test-IsQuiet now _ _ (search quiet) (search quiet)))
          (λ reason. search quiet))
        (λ termination. option-IsQuiet termination _ _ (search quiet) (λ reason. search quiet))

  -- The commands of a workflow leave the journal, the containers and the networks as they are.
  pub run_commands-IsQuiet :
      (id : Text) (workflow : WorkflowSpec) → IsQuiet (run_commands config host id workflow)
  unfolding run_commands
  run_commands-IsQuiet id workflow = search (
    quiet, setup_loop-IsQuiet, note_setup-IsQuiet, initialize-IsQuiet, iterations-IsQuiet,
    conclude-IsQuiet,
  )
