-- ===== src/State.antt =====
-- components/ot_state: what the boiler said about every entity. The arrays are functions of the
-- index, which the code keeps within the list of entities and the 128 Data-IDs.
pub mod Marks
pub mod Refine
pub mod Model
pub mod Virtual
pub mod Fill
pub mod Reading
pub mod Applied
pub mod Unsupported
pub mod Sources
pub mod NoValue
mod Examples
