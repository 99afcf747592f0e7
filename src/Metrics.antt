-- ===== src/Metrics.antt =====
-- internal/metrics: what a worker records of its requests, and how the records are merged.
pub mod Histogram
pub mod Samples
pub mod Worker
pub mod Merge
