-- ===== src/Policy.antt =====
-- crates/runner-core/src/policy.rs: what a job may ask of this runner.
mod Defs
pub mod Clamp
pub mod Admission
pub mod Environment
mod Examples
unfoldable pub use Defs.*
