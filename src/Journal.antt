-- ===== src/Journal.antt =====
-- crates/runner-core/src/journal.rs: the SQLite journal. A table is the list of its rows; each
-- statement is a function on the tables. The engine may refuse any statement (a poisoned lock counts
-- as one): `faults` says which of the next statements fail, and a failed one changes nothing.
mod Defs
pub mod Jobs
pub mod Outbox
pub mod Pending
pub mod Keys
mod Examples
unfoldable pub use Defs.*
