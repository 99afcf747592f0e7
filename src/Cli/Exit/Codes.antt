-- ===== src/Cli/Exit/Codes.antt =====
-- What the exit code of a command tells of its error.
use daegsa.Prelude.{Bool, true, List, [], ◌∷◌, ◌≡◌, ◌⊎◌, if◌then◌else◌}
use daegsa.Cli.Exit.{
  ExitCode, ErrorChain, Sentinel, exit_code_validation_failure, exit_code_runtime_failure,
  exit_code_safety_refusal,
}

-- The code of an error with or without a safety error and a validation error in its chain.
abbrev code_of : Bool → Bool → ExitCode
code_of safety validation =
    if safety
    then exit_code_safety_refusal
    else if validation
    then exit_code_validation_failure
    else exit_code_runtime_failure

module _ (chain : ErrorChain) where
  -- Some sentinel of the list is in the error's chain.
  abbrev pub Wraps : chain.Err → List Sentinel → Type 0
  Wraps e [] = ⊥
  Wraps e (s ∷ l) = (chain.is_sentinel e s ≡ true) ⊎ Wraps e l
