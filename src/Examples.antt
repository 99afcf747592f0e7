-- ===== src/Examples.antt =====
-- Runs of the models at concrete inputs.
mod Core
mod Profile
mod Hosts
mod Metrics
mod Open
mod Threshold
mod Exit
mod Config
mod Preflight
mod AdHoc
mod Run
mod Scenario
mod RateLimit
mod Redact
