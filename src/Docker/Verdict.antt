-- ===== src/Docker/Verdict.antt =====
-- When a workflow is completed: its last round.
use ai_kodu_runner.Base.{Text, text, none, some, List, ◌++◌, ◌≡◌, ◌⊎◌}
use ai_kodu_runner.Config.{RunnerConfig}
use ai_kodu_runner.Protocol.{WorkflowSpec}
use ai_kodu_runner.Docker.Engine.{ExecutionTermination, Host, Ran, World}
use ai_kodu_runner.Docker.Flow.{Flow, status_of}
use ai_kodu_runner.Docker.Ends.{Ends}
use ai_kodu_runner.Docker.Passed.{expected_round, AllRanAs}

module _ (config : RunnerConfig) (host : Host) where
  -- The end of a workflow that is completed: what stood in the history before its last round, and the
  -- round.
  abbrev pub IsCompletedRound : (id : Text) → WorkflowSpec → World → Type 0
  IsCompletedRound id workflow end =
      (before : List Ran) × ((round : List Ran) × (end.history ≡ before ++ round)
        × AllRanAs id (expected_round config.security.mandatory_verifiers workflow) round)

  abbrev RoundsPromise : (id : Text) → WorkflowSpec → Flow → World → Type 0
  RoundsPromise id workflow flow end =
      (flow.final_status ≡ text "failed")
      ⊎ ((flow.final_status ≡ text "completed") × IsCompletedRound id workflow end)

  -- Before the rounds the status is that of the start.
  abbrev IsUndecided : Flow → World → Type 0
  IsUndecided flow end = flow.final_status ≡ text "failed"

  -- How a workflow ends: failed with nothing that ended it, completed after a whole round, or ended
  -- from outside, with the status that says so.
  abbrev pub IsVerdict : (id : Text) → WorkflowSpec → Flow → World → Type 0
  IsVerdict id workflow flow end =
      ((flow.termination ≡ none)
        × ((flow.final_status ≡ text "failed")
            ⊎ ((flow.final_status ≡ text "completed") × IsCompletedRound id workflow end)))
      ⊎ ((reason : ExecutionTermination) × (flow.termination ≡ some reason)
          × (flow.final_status ≡ status_of reason)
          × (flow.failed_phase ≡ some (status_of reason)))
