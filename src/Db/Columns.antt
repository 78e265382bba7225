-- ===== src/Db/Columns.antt =====
-- The enumerated columns of the schema (src/db/columns.ts). A code numbers the constructors, and
-- two values are compared by their codes.
pub mod Tasks
pub mod Runs
pub mod Providers
pub mod Findings
