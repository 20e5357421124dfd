-- ===== src/Docker.antt =====
-- crates/executor-docker/src/lib.rs: the log of a container, the commands run in it, the workflow of
-- a job, and the status that a run ends with.
mod Output
mod Stream
mod Redaction
mod Engine
pub mod FeedbackPath
mod Walked
pub mod Contained
mod Places
mod Pieces
pub mod Streamed
mod Doctor
mod Exec
mod Bounded
pub mod Played
mod Resources
mod Services
mod Job
mod Quiet
mod RunWorkflow
mod Track
mod Tidy
mod Serviced
pub mod Destroyed
mod RunCommand
pub mod Ended
mod Cleanup
mod Cleared
pub mod Cleaned
pub mod Redacted
pub mod Logs
mod Flow
mod Setup
mod Iterations
mod Workflow
mod Frame
mod Ends
mod Makes
mod Profile
mod Started
mod Launched
pub mod Confined
mod Passed
mod Rounds
pub mod Verdict
pub mod Captured
mod Examples
mod Sample
mod Trials
mod Checks
unfoldable pub use Output.*
