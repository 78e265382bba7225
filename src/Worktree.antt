-- ===== src/Worktree.antt =====
-- The worktrees (src/worktree).
pub mod Lock
mod Examples
