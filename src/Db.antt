-- ===== src/Db.antt =====
-- The control plane's tables: the enumerated columns, the rows, and the event log.
pub mod Columns
pub mod Schema
pub mod Events
pub mod State
pub mod Rows
