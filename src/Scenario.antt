-- ===== src/Scenario.antt =====
-- internal/scenario: the variables in the templates of a scenario's steps.
pub mod Substitute
