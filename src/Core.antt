-- ===== src/Core.antt =====
-- app/core/: the legacy contract engine behind `/track`.
pub mod Parser
pub mod Drift
pub mod Snapshots
