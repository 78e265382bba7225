-- ===== src/Providers/Classify/Agree.antt =====
-- The two readings of an exit reason, and the policy after a failure (src/providers/capacity.ts,
-- src/providers/failback.ts).
