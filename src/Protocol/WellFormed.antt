-- ===== src/Protocol/WellFormed.antt =====
-- What a job specification must be, stated without the validator; the equivalence with `validate`
-- is proved in the modules below.
mod Parts
mod Tests
mod Loops
mod Feedback
mod Laws
pub use Parts.*
pub use Tests.{Fresh, Fresh-cons, Fresh-nil}
pub use Laws.*
