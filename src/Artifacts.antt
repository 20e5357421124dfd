-- ===== src/Artifacts.antt =====
-- crates/runner-core/src/artifacts.rs: which files of a finished job are kept, and where.
mod Defs
pub mod Glob
pub mod Export
pub mod Names
mod Examples
unfoldable pub use Defs.*
