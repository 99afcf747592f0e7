-- ===== src/Core.antt =====
-- internal/core: the lifecycle of a run, the classification of requests, and their timing.
pub mod Lifecycle
pub mod Outcome
pub mod Timing
