-- ===== src/Workspace.antt =====
-- crates/runner-core/src/workspace.rs: what fills a workspace (a local tree, an archive or a repository)
-- and the publication of a Git workspace.
mod Copy
mod Archive
mod Publish
mod Download
mod Prepare
pub mod Trees
pub mod Unpacking
pub mod Publishing
pub mod Prepared
pub mod Downloaded
mod Examples
mod Trials
unfoldable pub use Copy.*
unfoldable pub use Archive.*
unfoldable pub use Publish.*
unfoldable pub use Download.*
unfoldable pub use Prepare.*
