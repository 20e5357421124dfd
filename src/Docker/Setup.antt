-- ===== src/Docker/Setup.antt =====
-- The set-up of a workflow and the initialisation of its agent.
use ai_kodu_runner.Base.{
  is_zero, Text, text, true, false, not, ◌&&◌, Option, none, some, is_some, List, [], ◌∷◌, ◌++◌,
  if◌then◌else◌,
}
use ai_kodu_runner.Config.{RunnerConfig}
use ai_kodu_runner.Protocol.{CommandSpec, WorkflowSpec}
use ai_kodu_runner.Docker.Engine.{ExecutionTermination, Host, Run, pure, ask, ◌>>=◌, ◌>>◌}
use ai_kodu_runner.Docker.Flow.{Flow, show_int, line, stop_at, fail_setup, write_feedback, capture}

module _ (config : RunnerConfig) (host : Host) where
  -- The test before a set-up command.
  unfoldable pub interruption : Run (Option ExecutionTermination)
  interruption = do
    cancelled ← ask host.is_cancelled
    elim cancelled [
      | true ↦ do
        again ← ask host.is_cancelled
        pure (
            some (if again then ExecutionTermination.cancelled else ExecutionTermination.timed_out))
      | false ↦ do
        late ← ask host.is_late
        elim late [
          | true ↦ do
            again ← ask host.is_cancelled
            pure (
                some (
                  if again then ExecutionTermination.cancelled else ExecutionTermination.timed_out))
          | false ↦ pure none
        ]
    ]

  unfoldable pub setup_loop : (id : Text) → List CommandSpec → Flow → Run Flow
  unfolding interruption capture
  setup_loop id [] flow = pure flow
  setup_loop id (setup ∷ rest) flow = do
    interrupted ← interruption
    elim interrupted [
      | some reason ↦ pure (stop_at reason (text "setup") flow)
      | none ↦ do
        (result, after) ← capture config host id (text "setup") setup flow
        elim result.termination [
          | some reason ↦ pure (stop_at reason (text "setup") after)
          | none ↦
              setup_loop id rest
                (if is_zero result.status then after else fail_setup (text "setup") after)
        ]
    ]

  unfoldable pub note_setup : Flow → Run (Unit {0})
  unfolding write_feedback
  note_setup flow = elim (not (is_some flow.termination) && not flow.setup_ok) [
    | true ↦ write_feedback config host (line (text "Workflow setup command failed."))
    | false ↦ pure tt
  ]

  unfoldable pub initialize_agent : (id : Text) → CommandSpec → Flow → Run Flow
  unfolding capture write_feedback show_int
  initialize_agent id command flow = do
    (result, after) ← capture config host id (text "initialize") command flow
    elim result.termination [
      | some reason ↦ pure (stop_at reason (text "initialize") after)
      | none ↦ elim (is_zero result.status) [
        | true ↦ pure after
        | false ↦ do
          write_feedback config host (
              line (
                text "Agent context initialization failed with exit code "
                ++ (show_int result.status ++ text "."))
              ++ host.from_utf8_lossy result.stdout)
          pure (fail_setup (text "initialize") after)
      ]
    ]

  -- The token is asked only where nothing has ended the job.
  unfoldable pub initialize : (id : Text) → WorkflowSpec → Flow → Run Flow
  unfolding initialize_agent
  initialize id workflow flow = elim (is_some flow.termination) [
    | true ↦ pure flow
    | false ↦ do
      cancelled ← ask host.is_cancelled
      elim (not cancelled && flow.setup_ok) [
        | true ↦ elim workflow.initialize [
          | some command ↦ initialize_agent id command flow
          | none ↦ pure flow
        ]
        | false ↦ pure flow
      ]
  ]
