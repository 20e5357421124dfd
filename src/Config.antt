-- ===== src/Config.antt =====
-- crates/runner-core/src/config.rs: the runner's configuration. The process environment is a function
-- from names to values; reading and parsing the file is not modelled.
mod Defs
pub mod Platform
mod Examples
unfoldable pub use Defs.*
