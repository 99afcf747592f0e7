-- ===== src/Examples/Exit.antt =====
-- The exit code of an error that wraps a missing environment variable.
use daegsa.Prelude.{ℕ, Bool, true, false, none}
use daegsa.Cli.Exit.{ErrorChain, Sentinel, missing_env_var}

abbrev is_missing_env_var : Sentinel → Bool
is_missing_env_var missing_env_var = true
is_missing_env_var _ = false

abbrev one_error : ErrorChain
one_error = record { Err = ℕ; exit_coder = λ _. none; is_sentinel = λ _ s. is_missing_env_var s }
