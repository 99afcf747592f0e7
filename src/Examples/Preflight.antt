-- ===== src/Examples/Preflight.antt =====
-- The preflight of a valid configuration that a flag keeps from looking its host up, and of one that
-- finds no address.
use daegsa.Prelude.{ℕ, Bool, true, false, [], none, some, ◌≡◌, ◌↔◌, refl}
use daegsa.Prelude.Strings.{is_space, lower, upper}
use daegsa.Prelude.Result.{ok, err}
use daegsa.Prelude.Float.{seconds}
use daegsa.Prelude.Int.{quot, rem, ◌+ℤ◌, ◌-ℤ◌}
use daegsa.Prelude.Word.{wrap64}
use daegsa.Profile.Compile.{compile}
use daegsa.Cli.Exit.{
  ErrorChain, Sentinel, safety_refusal, dns_preflight_failed, determine_exit_code,
  exit_code_safety_refusal,
}
use daegsa.Config.AllowedHost.{
  normalize_allowed_host, check_labels, check_label, check_chars, validate_dns_name,
}
use daegsa.Config.Types.{profile_source}
use daegsa.Config.Bytes.{parse_byte_size}
use daegsa.Config.Validate.Load.{compile_load_profile}
use daegsa.Safety.HostPolicy.{is_host_allowed, is_destructive_method}
use daegsa.Safety.Preflight.{
  no_address, preflight_sentinels, SafetyFlags, PreflightResult, Network, targets, check_target,
  check_targets, figures, check_figures, resolve_host, resolve_hosts, check,
}
use daegsa.Safety.Preflight.Authorized.{IsAuthorized, check-iff-IsAuthorized}
use daegsa.Safety.Preflight.Valid.{determine_exit_code-check}
use daegsa.Examples.Config.{one_url, config, valid_config, config-ok}

-- Every host is known and has no address.
abbrev deaf : Network one_url
deaf = record { lookup = λ _. some []; in_map_order = λ l. l }

abbrev no_flags : SafetyFlags
no_flags = record { allow_destructive = false; non_interactive = false; skip_dns_preflight = false }

abbrev skip_dns : SafetyFlags
skip_dns = record { allow_destructive = false; non_interactive = false; skip_dns_preflight = true }

check-iff-IsAuthorized_example :
    ((r : PreflightResult one_url) × (check one_url deaf valid_config skip_dns ≡ ok r))
    ↔ IsAuthorized one_url deaf valid_config skip_dns
check-iff-IsAuthorized_example =
    check-iff-IsAuthorized one_url deaf (λ P l. ((λ h. h), (λ h. h))) valid_config skip_dns

refused : check one_url deaf valid_config no_flags ≡ err no_address
unfolding check targets check_targets check_target figures check_figures resolve_hosts resolve_host
    compile_load_profile compile profile_source seconds quot rem wrap64 ◌+ℤ◌ ◌-ℤ◌ is_host_allowed
    is_destructive_method parse_byte_size normalize_allowed_host is_space lower upper
    validate_dns_name check_labels check_label check_chars
refused = refl

abbrev is_dns_refusal : Sentinel → Bool
is_dns_refusal safety_refusal = true
is_dns_refusal dns_preflight_failed = true
is_dns_refusal _ = false

abbrev dns_error : ErrorChain
dns_error = record { Err = ℕ; exit_coder = λ _. none; is_sentinel = λ _ s. is_dns_refusal s }

determine_exit_code-check_example :
    determine_exit_code dns_error (some 0) ≡ exit_code_safety_refusal
unfolding preflight_sentinels
determine_exit_code-check_example =
    determine_exit_code-check one_url dns_error 0 config deaf no_flags config-ok refused refl
      (refl, (refl, tt))
