-- ===== src/Protocol.antt =====
-- crates/runner-protocol/src/lib.rs: the job specification, its validation and the job result.
mod Types
mod Feedback
mod Validate
mod Outcome
mod Decode
pub mod WellFormed
pub mod Paths
pub mod Summary
pub mod Versions
pub mod Sample
mod Examples
unfoldable pub use Types.*
unfoldable pub use Feedback.*
unfoldable pub use Validate.*
unfoldable pub use Outcome.*
unfoldable pub use Decode.*
