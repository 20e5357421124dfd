-- ===== src/Control/Heartbeat.antt =====
-- The heartbeat task of a leased job.
use ai_kodu_runner.Base.{
  ℕ, ◌+◌, Bool, true, false, Option, none, some, List, [], ◌∷◌, Error, leb, if◌then◌else◌,
}

-- The variants `Continue`, `Cancel` and `LeaseLost`.
pub data HeartbeatDecision : Type 0 where
  go_on cancel lease_lost : HeartbeatDecision

-- What one turn of the loop sees: the token is cancelled, or after the interval the control plane
-- answers or fails.
pub data Tick : Type 0 where
  shut_down : Tick
  answered : HeartbeatDecision → Tick
  refused : Error → Tick

-- The task's result, where it has ended, and whether it has cancelled the job.
pub record Beat : Type 0 where
  pub decision : Option HeartbeatDecision
  pub cancels : Bool

abbrev pub heartbeat_failure_limit : ℕ
heartbeat_failure_limit = 3

unfoldable pub heartbeat_loop : (failures : ℕ) → List Tick → Beat
heartbeat_loop failures [] = record { decision = none; cancels = false }
heartbeat_loop failures (shut_down ∷ rest) = record { decision = some cancel; cancels = false }
heartbeat_loop failures (answered go_on ∷ rest) = heartbeat_loop 0 rest
heartbeat_loop failures (answered cancel ∷ rest) = record { decision = some cancel; cancels = true }
heartbeat_loop failures (answered lease_lost ∷ rest) = record {
  decision = some lease_lost;
  cancels = true;
}
heartbeat_loop failures (refused e ∷ rest) =
    let later = heartbeat_loop (failures + 1) rest in
    if leb heartbeat_failure_limit (failures + 1)
    then record { decision = some lease_lost; cancels = true }
    else later
