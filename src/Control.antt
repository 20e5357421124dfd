-- ===== src/Control.antt =====
-- src/control/mod.rs and src/control/http.rs: the work on a leased job besides its execution. An
-- answer of the control plane, a timeout and the shutdown are inputs, one for each call or tick.
mod Heartbeat
mod Logs
mod Dispatch
mod Completion
mod Daemon
mod Leased
pub mod Kept
pub mod Survives
mod Runs
pub mod Daemons
mod Http
pub mod Answers
pub mod Leases
pub mod Beats
pub mod Uploads
pub mod Verdicts
pub mod Deliveries
pub mod Replays
pub mod Keys
mod Examples
unfoldable pub use Heartbeat.*
unfoldable pub use Logs.*
unfoldable pub use Dispatch.*
unfoldable pub use Completion.*
