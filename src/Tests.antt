-- ===== src/Tests.antt =====
-- A concrete world and the examples of the library.
pub mod World
pub mod Running
pub mod Supervisor
pub mod Building
pub mod Command
pub mod Sync
pub mod Managed
pub mod Custody
pub mod Threads
pub mod ManagedChild
pub mod Calls
pub mod Cancelling
pub mod AsyncImpl
pub mod Debug
pub mod Delivery
pub mod Cause
pub mod Timeout
pub mod Unit
