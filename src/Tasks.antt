-- ===== src/Tasks.antt =====
-- The task board (src/tasks/): the state machine, the dependency edges and the rows themselves.
pub mod Machine
pub mod Transitions
pub mod Dependencies
pub mod Fields
pub mod Crud
pub mod Drafts
pub mod Examples
