-- ===== src/Control.antt =====
-- components/ot_control: the executor core.
pub mod Types
pub mod Names
pub mod Bound
pub mod Clock
pub mod Boost
pub mod Edges
pub mod Failsafe
pub mod Dhw
pub mod Step
pub mod Command
pub mod Frames
pub mod Ticks
pub mod Trace
pub mod Held
pub mod Bounds
pub mod Ladder
pub mod Watchdog
pub mod Latch
pub mod Ownership
pub mod Entry
pub mod BoostWindow
pub mod DhwPace
pub mod DhwCap
pub mod Hours
pub mod Cycle
pub mod Scenes
mod Examples
