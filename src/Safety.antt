-- ===== src/Safety.antt =====
-- internal/safety: which hosts and methods a run may use.
pub mod HostPolicy
pub mod Preflight
