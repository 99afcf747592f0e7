-- ===== src/Cli/Exit.antt =====
-- internal/core/exitcode.go and DetermineExitCode of internal/cli/exit.go. What errors.Is and
-- errors.As tell of an error is the record `ErrorChain`.
pub mod Codes
use daegsa.Prelude.{Bool, true, false, List, [], ◌∷◌, Option, none, some, ◌&&◌, any, if◌then◌else◌}
use daegsa.Prelude.Int.{ℤ, pos, leb_ℤ}

abbrev pub ExitCode : Type 0
ExitCode = ℤ

abbrev pub exit_code_success : ExitCode
exit_code_success = pos 0

abbrev pub exit_code_threshold_failure : ExitCode
exit_code_threshold_failure = pos 1

abbrev pub exit_code_validation_failure : ExitCode
exit_code_validation_failure = pos 2

abbrev pub exit_code_runtime_failure : ExitCode
exit_code_runtime_failure = pos 3

abbrev pub exit_code_safety_refusal : ExitCode
exit_code_safety_refusal = pos 4

-- IsValid
unfoldable pub is_canonical : ExitCode → Bool
is_canonical c = leb_ℤ exit_code_success c && leb_ℤ c exit_code_safety_refusal

-- The sentinel errors that DetermineExitCode looks for.
pub data Sentinel : Type 0 where
  safety_refusal host_not_allowed destructive_method_unauthorized : Sentinel
  safety_ceiling_exceeded cross_origin_redirect_blocked dns_preflight_failed : Sentinel
  config_validation invalid_schema_version duplicate_yaml_key : Sentinel
  missing_env_var invalid_env_syntax invalid_threshold : Sentinel

pub record ErrorChain : Type 1 where
  pub Err : Type 0
  pub exit_coder : Err → Option ExitCode
  pub is_sentinel : Err → Sentinel → Bool

abbrev pub safety_sentinels : List Sentinel
safety_sentinels =
    safety_refusal ∷ host_not_allowed ∷ destructive_method_unauthorized ∷ safety_ceiling_exceeded
    ∷ cross_origin_redirect_blocked ∷ dns_preflight_failed ∷ []

abbrev pub validation_sentinels : List Sentinel
validation_sentinels =
    config_validation ∷ invalid_schema_version ∷ duplicate_yaml_key ∷ missing_env_var
    ∷ invalid_env_syntax ∷ invalid_threshold ∷ []

module _ (chain : ErrorChain) where
  abbrev code_by_sentinel : chain.Err → ExitCode
  code_by_sentinel e =
      if any (chain.is_sentinel e) safety_sentinels
      then exit_code_safety_refusal
      else if any (chain.is_sentinel e) validation_sentinels
      then exit_code_validation_failure
      else exit_code_runtime_failure

  abbrev declared_or : Option ExitCode → ExitCode → ExitCode
  declared_or none c = c
  declared_or (some declared) c = declared

  unfoldable pub determine_exit_code : Option chain.Err → ExitCode
  determine_exit_code none = exit_code_success
  determine_exit_code (some e) = declared_or (chain.exit_coder e) (code_by_sentinel e)
