-- ===== src/Providers.antt =====
-- Providers (src/providers/): the capacity pools that gate every claim, and the failback policy.
pub mod Capacity
pub mod Failback
pub mod Classify
pub mod Router
pub mod Examples
