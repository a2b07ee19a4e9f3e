-- ===== src/Command.antt =====
-- components/ot_command: a write from outside, judged and turned into a frame or a command.
pub mod Encode
pub mod Check
pub mod Limits
pub mod Legal
pub mod Unit
pub mod Accepted
mod Examples
