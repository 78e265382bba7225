-- ===== src/Gate.antt =====
-- The gates before a pull request and before a merge (src/gate/, src/forge/preflight.ts).
pub mod Ci
pub mod Freshness
pub mod PrePr
pub mod Preflight
mod Examples
