-- ===== src/Docker/Workflow.antt =====
-- `run_workflow` between the start of the container and the collection of its results: the set-up, the
-- rounds of agent, verifiers and publication, and the status. `Flow` is its mutable variables.
use ai_kodu_runner.Base.{Text, true, false, Option, none, some, [], ◌∷◌, ◌++◌, if◌then◌else◌}
use ai_kodu_runner.Config.{RunnerConfig}
use ai_kodu_runner.Protocol.{WorkflowSpec}
use ai_kodu_runner.Docker.Engine.{ExecutionTermination, Host, Run, pure, ask, update, ◌>>=◌, ◌>>◌}
use ai_kodu_runner.Docker.Flow.{Flow, first_flow, status_of}
use ai_kodu_runner.Docker.Setup.{setup_loop, note_setup, initialize}
use ai_kodu_runner.Docker.Iterations.{iterations}

module _ (config : RunnerConfig) (host : Host) where
  -- The token and the deadline after the rounds.
  unfoldable pub late_termination : Flow → Run (Option ExecutionTermination)
  late_termination flow = elim flow.termination [
    | some reason ↦ pure (some reason)
    | none ↦ do
      cancelled ← ask host.is_cancelled
      elim cancelled [
        | true ↦ pure (some ExecutionTermination.cancelled)
        | false ↦ do
          late ← ask host.is_late
          pure (if late then some ExecutionTermination.timed_out else none)
      ]
  ]

  -- A job that is ended from outside has its container stopped, whatever the engine answers.
  unfoldable pub conclude : (id : Text) → Flow → Run Flow
  unfolding late_termination
  conclude id flow = do
    termination ← late_termination flow
    elim termination [
      | none ↦ pure flow
      | some reason ↦ do
        update (λ w. record w { stopped = w.stopped ++ id ∷ [] })
        pure (record flow {
          termination = some reason;
          final_status = status_of reason;
          failed_phase = some (status_of reason);
        })
    ]

  unfoldable pub run_commands : (id : Text) → WorkflowSpec → Run Flow
  unfolding setup_loop note_setup initialize iterations conclude
  run_commands id workflow = do
    set_up ← setup_loop config host id workflow.setup first_flow
    note_setup config host set_up
    initialized ← initialize config host id workflow set_up
    iterated ← iterations config host id workflow workflow.max_iterations 1 initialized
    conclude id iterated
