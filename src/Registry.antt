-- ===== src/Registry.antt =====
-- components/ot_registry: the list of the entities and the lookups in it.
pub mod Types
pub mod Lookup
pub mod Visits
pub mod Options
pub mod RowsLow
pub mod RowsMiddle
pub mod RowsHigh
pub mod Table
pub mod Facts
pub mod Polls
mod Examples
