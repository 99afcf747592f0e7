-- ===== src/Threshold.antt =====
-- internal/threshold: performance thresholds and their evaluation.
pub mod Types
pub mod Evaluate
pub mod Parse
