-- ===== src/Commands.antt =====
-- src/main.rs, src/cli.rs, src/janitor.rs and src/job.rs: the commands of the runner. The lines that a
-- command prints are its result. Reading files, parsing, the Docker executor, the printing of a result
-- and the loop of the daemon are parameters.
mod Defs
pub mod LocalRuns
mod Examples
unfoldable pub use Defs.*
