-- ===== src/Provision.antt =====
-- components/ot_provision: what the device does about its network, and for whom it is open.
-- A state here is a struct that exists: for NULL every event does nothing.
pub mod Types
pub mod Window
pub mod Retry
pub mod Events
pub mod Tick
pub mod Questions
pub mod Trace
pub mod Alive
pub mod Trial
pub mod Commits
pub mod Fallback
pub mod Exposure
pub mod Backoff
pub mod Claim
mod Examples
