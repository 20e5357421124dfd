-- ===== src/Executor.antt =====
-- crates/runner-core/src/executor.rs and mock.rs: what an executor promises, and the choice of one.
mod Defs
mod Mock
mod Factory
pub mod Admission
mod Examples
unfoldable pub use Defs.*
unfoldable pub use Mock.*
unfoldable pub use Factory.*
