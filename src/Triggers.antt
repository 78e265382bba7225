-- ===== src/Triggers.antt =====
-- The triggers of routines (src/triggers).
pub mod Cron
mod Examples
