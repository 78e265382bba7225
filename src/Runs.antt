-- ===== src/Runs.antt =====
-- Agent runs (src/runs/): the state machine, the claim, the watchdog and the budgets.
pub mod Machine
pub mod Transitions
pub mod Claim
pub mod Transcript
pub mod Watchdog
pub mod Budget
pub mod Examples
