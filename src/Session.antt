-- ===== src/Session.antt =====
-- The session runner of crates/rssh-ssh/src/lib.rs: errors, the shared cancellation flag, the
-- halves of a channel, the two pumps and the run that joins them.
pub mod Failure
pub mod Cancellation
pub mod Halves
pub mod Exit
pub mod Input
pub mod Output
pub mod Run
pub mod Legacy
