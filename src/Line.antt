-- ===== src/Line.antt =====
-- The wire: a word as Manchester half-bits, and the machine that samples them back.
pub mod Encode
pub mod Decode
pub mod Sampling
pub mod Ending
pub mod Framing
pub mod RoundTrip
pub mod Wire
mod Examples
