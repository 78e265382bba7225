-- ===== src/Review.antt =====
-- The review of a change (src/review).
pub mod Verdict
pub mod Judge
pub mod Tournament
pub mod RiskTier
pub mod Coordinator
mod Examples
