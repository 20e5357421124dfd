-- ===== src/Docker/Iterations.antt =====
-- The rounds of a workflow: the agent, the verifiers, the publication, the feedback.
use ai_kodu_runner.Base.{
  ℕ, zero, suc, ◌+◌, is_zero, Text, text, decimal, Bool, true, false, not, ◌&&◌, ◌||◌, none, some,
  is_some, List, [], ◌∷◌, ◌++◌, ◌==◌, if◌then◌else◌,
}
use ai_kodu_runner.Config.{RunnerConfig}
use ai_kodu_runner.Protocol.{CommandSpec, VerifierSpec, WorkflowSpec}
use ai_kodu_runner.Docker.Engine.{ExecResult, Host, Run, pure, ask, ◌>>=◌, ◌>>◌}
use ai_kodu_runner.Docker.Flow.{
  Flow, Round, show_int, line, stop_at, verifier_command, write_feedback, capture,
}

module _ (config : RunnerConfig) (host : Host) where
  -- The section of the report for a verifier.
  unfoldable pub report_of : (title : Text) → ExecResult → Text
  unfolding show_int
  report_of title result =
      line []
      ++ line (title ++ (text " exit code: " ++ show_int result.status))
      ++ line (text "stdout:")
      ++ line (host.from_utf8_lossy result.stdout)
      ++ line (text "stderr:")
      ++ line (host.from_utf8_lossy result.stderr)

  -- What a verifier's result changes: a required one that fails, fails the round.
  unfoldable pub judge : (required : Bool) → (title : Text) → ExecResult → Flow → Round → Round
  unfolding report_of
  judge required title result after round =
      let failing = required && not (is_zero result.status) in
      record {
        flow = if failing then record after { failed_phase = some (text "verifier") } else after;
        all_passed = round.all_passed && not failing;
        report = round.report ++ report_of title result;
      }

  unfoldable pub verifier_loop : (id : Text) → List VerifierSpec → Round → Run Round
  unfolding capture judge
  verifier_loop id [] round = pure round
  verifier_loop id (verifier ∷ rest) round = do
    (result, after) ←
        capture config host id (text "verifier") (verifier_command verifier) round.flow
    elim result.termination [
      | some reason ↦ pure (record round { flow = stop_at reason (text "verifier") after })
      | none ↦
          verifier_loop id rest
            (judge verifier.required (text "Verifier " ++ verifier.name) result after round)
    ]

  unfoldable pub mandatory_loop : (id : Text) → List CommandSpec → Round → Run Round
  unfolding capture judge
  mandatory_loop id [] round = pure round
  mandatory_loop id (verifier ∷ rest) round = elim round.flow.termination [
    | some reason ↦ pure round
    | none ↦ do
      (result, after) ← capture config host id (text "verifier") verifier round.flow
      elim result.termination [
        | some reason ↦ pure (record round { flow = stop_at reason (text "verifier") after })
        | none ↦ mandatory_loop id rest (
            judge true (text "Mandatory verifier " ++ host.debug_strings verifier.command) result
              after round)
      ]
  ]

  unfoldable pub publish_command : (id : Text) → CommandSpec → Round → Run Round
  unfolding capture
  publish_command id publish round = do
    (result, after) ← capture config host id (text "publish") publish round.flow
    elim result.termination [
      | some reason ↦ pure (record round { flow = stop_at reason (text "publish") after })
      | none ↦ pure (record round {
        flow =
            if is_zero result.status
            then after
            else record after { failed_phase = some (text "publish") };
        all_passed = is_zero result.status;
      })
    ]

  -- A round is published only where everything has passed.
  unfoldable pub publish_round : (id : Text) → WorkflowSpec → Round → Run Round
  unfolding publish_command
  publish_round id workflow round =
      elim (not (is_some round.flow.termination) && round.all_passed) [
        | true ↦ elim workflow.publish [
          | some publish ↦ publish_command id publish round
          | none ↦ pure round
        ]
        | false ↦ pure round
      ]

  -- The round once the agent has ended by itself.
  unfoldable pub first_round : (iteration : ℕ) → ExecResult → Flow → Round
  unfolding show_int
  first_round iteration agent after = record {
    flow =
        if is_zero agent.status then after else record after { failed_phase = some (text "agent") };
    all_passed = is_zero agent.status;
    report = line (
        text "Iteration "
        ++ (decimal iteration ++ (text " agent exit code: " ++ show_int agent.status)));
  }

  unfoldable pub check_round : (id : Text) → WorkflowSpec → Round → Run Round
  unfolding verifier_loop mandatory_loop publish_round
  check_round id workflow round = do
    verified ← verifier_loop id workflow.verifiers round
    mandated ← mandatory_loop id config.security.mandatory_verifiers verified
    publish_round id workflow mandated

  unfoldable pub is_halted : Flow → Run Bool
  is_halted flow = elim flow.setup_ok [
    | false ↦ pure true
    | true ↦ do cancelled ← ask host.is_cancelled; pure (cancelled || is_some flow.termination)
  ]

  -- The rounds that are left, from `iteration` on.
  unfoldable pub iterations : (id : Text) → WorkflowSpec → (left iteration : ℕ) → Flow → Run Flow
  unfolding is_halted capture first_round check_round write_feedback
  iterations id workflow zero iteration flow = pure flow
  iterations id workflow (suc left) iteration flow = do
    halted ← is_halted flow
    elim halted [
      | true ↦ pure flow
      | false ↦ do
        (agent, after) ← capture config host id (text "agent") workflow.agent flow
        elim agent.termination [
          | some reason ↦ pure (stop_at reason (text "agent") after)
          | none ↦ do
            round ← check_round id workflow (first_round iteration agent after)
            elim (not (is_some round.flow.termination) && round.all_passed) [
              | true ↦ pure (record (round.flow) { final_status = text "completed" })
              | false ↦ do
                write_feedback config host round.report
                elim (iteration == workflow.max_iterations) [
                  | true ↦ pure round.flow
                  | false ↦ iterations id workflow left (iteration + 1) round.flow
                ]
            ]
        ]
    ]
