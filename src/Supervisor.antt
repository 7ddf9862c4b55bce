-- ===== src/Supervisor.antt =====
-- crates/epitelesis/src/supervisor.rs: the supervisor that owns one process group from its spawn
-- to the final evidence.
pub mod Capture
pub mod Primary
pub mod Owned
pub mod Polling
pub mod Rounds
pub mod Execute
pub mod Invariant
pub mod Launch
pub mod Frame
pub mod Custody
pub mod Time
pub mod Delivery
pub mod Cause
pub mod Managed
