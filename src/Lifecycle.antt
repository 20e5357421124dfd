-- ===== src/Lifecycle.antt =====
-- crates/runner-core/src/state.rs: the states of a job, their names, and the transitions declared
-- between them.
pub mod Laws
mod Examples
use ai_kodu_runner.Base.{Text, text, text_eq, Bool, true, false, if◌then◌else◌}

pub data State : Type 0 where
  received preparing running collecting completed failed cancelled timed_out destroying destroyed :
      State

unfoldable pub as_str : State → Text
as_str received = text "received"
as_str preparing = text "preparing"
as_str running = text "running"
as_str collecting = text "collecting"
as_str completed = text "completed"
as_str failed = text "failed"
as_str cancelled = text "cancelled"
as_str timed_out = text "timed_out"
as_str destroying = text "destroying"
as_str destroyed = text "destroyed"

unfoldable pub from_str : Text → State
from_str s =
    if text_eq s (text "completed")
    then completed
    else if text_eq s (text "cancelled")
    then cancelled
    else if text_eq s (text "timed_out")
    then timed_out
    else failed

unfoldable pub valid_transition : State → State → Bool
valid_transition received preparing = true
valid_transition preparing running = true
valid_transition preparing failed = true
valid_transition running collecting = true
valid_transition running cancelled = true
valid_transition running timed_out = true
valid_transition running failed = true
valid_transition collecting completed = true
valid_transition collecting failed = true
valid_transition completed destroying = true
valid_transition failed destroying = true
valid_transition cancelled destroying = true
valid_transition timed_out destroying = true
valid_transition destroying destroyed = true
valid_transition _ _ = false
