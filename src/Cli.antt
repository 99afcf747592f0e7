-- ===== src/Cli.antt =====
-- internal/cli: the exit codes of the commands.
pub mod Exit
