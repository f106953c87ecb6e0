-- ===== src/Health.antt =====
-- internal/dataplane/health: what backends publish against what was admitted, and what is refused.
pub mod Drift
pub mod State
