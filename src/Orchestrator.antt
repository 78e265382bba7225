-- ===== src/Orchestrator.antt =====
-- The orchestrator (src/orchestrator/): the end of a task's way, from approval to the merge.
pub mod AutoMerge
mod Examples
