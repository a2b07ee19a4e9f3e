-- ===== src/Room.antt =====
-- The room temperature: components/ot_sensor, the filter and the freshness of one source, and
-- components/ot_room, the choice among the sources.
pub mod Floats
pub mod Sensor
pub mod Select
pub mod Filter
pub mod Steer
mod Examples
