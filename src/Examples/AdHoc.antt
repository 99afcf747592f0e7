-- ===== src/Examples/AdHoc.antt =====
-- A command with the URL of a loopback host and no configuration.
use daegsa.Prelude.{true, false, [], ◌∷◌, none, some, ◌≡◌, ◌⊎◌, refl, is_empty, if◌then◌else◌}
use daegsa.Prelude.Int.{pos, quot, rem, ◌+ℤ◌, ◌-ℤ◌}
use daegsa.Prelude.Word.{wrap64}
use daegsa.Prelude.Float.{seconds}
use daegsa.Prelude.Text.{Text, codes, text_eq}
use daegsa.Prelude.Strings.{lower, upper, is_space}
use daegsa.Prelude.Result.{ok}
use daegsa.Profile.Compile.{compile}
use daegsa.Config.AllowedHost.{
  normalize_allowed_host, normalize_allowed_hosts, check_labels, check_label, check_chars,
  validate_dns_name, is_loopback_host,
}
use daegsa.Config.Types.{Config, model_open, profile_source}
use daegsa.Config.Bytes.{parse_byte_size}
use daegsa.Config.Precedence.{
  CliFlags, override_load, override_request, override_hosts, default_load, loopback_target_host,
  ad_hoc_hosts, with_defaults, override_config, apply_cli_overrides,
}
use daegsa.Config.Validate.{
  Url, ConfigLibrary, check_timeout, check_statuses, check_redirects, check_method,
  check_body_limit,
}
use daegsa.Config.Validate.Request.{check_options, validate_request_config}
use daegsa.Config.Validate.Load.{
  compile_load_profile, check_open_segments, validate_open, validate_load_config,
}
use daegsa.Config.Validate.Auth.{check_auth, validate_auth}
use daegsa.Config.Validate.Document.{
  validate_thresholds, check_request, check_scenario, check_safety, check_parts, validate_config,
}
use daegsa.Safety.HostPolicy.{is_host_allowed, is_destructive_method}
use daegsa.Safety.Preflight.{
  SafetyFlags, PreflightResult, Network, targets, check_target, check_targets, figures,
  check_figures, resolve_host, resolve_hosts, check,
}
use daegsa.Safety.Preflight.Loopback.{check-is_loopback_host}
use daegsa.Examples.Hosts.{one_address}
use daegsa.Examples.Profile.{whole}

abbrev local : Text
local = codes "http://127.0.0.1:8080/"

abbrev local_url : Url
local_url = record {
  scheme = codes "http";
  host = codes "127.0.0.1:8080";
  hostname = codes "127.0.0.1";
}

abbrev local_library : ConfigLibrary whole
local_library = record {
  hosts = one_address;
  parse_float = λ s. if text_eq s (codes "1") then some (pos 1) else none;
  parse_int = λ _. none;
  parse_url = λ s. if text_eq s local then some local_url else none;
  equal_fold = text_eq;
  regex_compiles = λ _. true;
}

abbrev empty_config : Config whole
empty_config = record {
  schema_version = pos 0;
  name = [];
  request = record {
    url = [];
    method = [];
    headers = [];
    expected_statuses = [];
    timeout = pos 0;
    response_body_limit = [];
    redirects = [];
  };
  scenario = none;
  load = record {
    model = [];
    rate = pos 0;
    time_unit = pos 0;
    max_in_flight = pos 0;
    duration = pos 0;
    graceful_stop = pos 0;
    users = pos 0;
    think_time = pos 0;
    segments = [];
  };
  treat_429_as_expected = false;
  auth = record {
    kind = [];
    token = [];
    header_name = [];
    username = [];
    password = [];
    token_pool = [];
    cookie_jar = false;
  };
  thresholds = [];
  safety = record { allowed_hosts = none; allow_non_idempotent = false };
}

abbrev flags : CliFlags whole
flags = record {
  config_file = [];
  url = local;
  method = [];
  model = [];
  rate = pos 0;
  time_unit = pos 0;
  users = pos 0;
  duration = pos 0;
  timeout = pos 0;
  max_in_flight = pos 0;
  response_body_limit = [];
  redirects = [];
  allowed_hosts = none;
  allow_destructive = false;
  dry_run = false;
  non_interactive = false;
}

abbrev ad_hoc : Config whole
ad_hoc = record empty_config {
  schema_version = pos 1;
  name = codes "cli-execution";
  request = record empty_config.request {
    url = local;
    method = codes "GET";
    expected_statuses = pos 200 ∷ [];
    timeout = pos 10_000_000_000;
    response_body_limit = codes "1MiB";
    redirects = codes "same-origin";
  };
  load = record empty_config.load {
    model = model_open;
    rate = pos 1;
    time_unit = pos 1_000_000_000;
    max_in_flight = pos 10;
    duration = pos 10_000_000_000;
    graceful_stop = pos 10_000_000_000;
  };
  auth = record empty_config.auth { kind = codes "none" };
  safety = record { allowed_hosts = some (codes "127.0.0.1" ∷ []); allow_non_idempotent = false };
}

ad_hoc-ok : apply_cli_overrides local_library empty_config (some flags) ≡ ok ad_hoc
unfolding apply_cli_overrides override_config override_load override_request override_hosts
    with_defaults default_load ad_hoc_hosts loopback_target_host is_loopback_host validate_config
    check_parts check_request check_scenario check_safety validate_thresholds validate_auth
    check_auth validate_request_config check_options check_method check_timeout check_statuses
    check_redirects check_body_limit parse_byte_size validate_load_config validate_open
    check_open_segments compile_load_profile compile profile_source seconds quot rem wrap64 ◌+ℤ◌
    ◌-ℤ◌ normalize_allowed_hosts normalize_allowed_host is_space lower upper validate_dns_name
    check_labels check_label check_chars
ad_hoc-ok = refl

abbrev no_network : Network local_library
no_network = record { lookup = λ _. none; in_map_order = λ l. l }

abbrev no_flags : SafetyFlags
no_flags = record { allow_destructive = false; non_interactive = false; skip_dns_preflight = false }

abbrev permitted : PreflightResult local_library
permitted = record {
  target_url = local_url;
  method = codes "GET";
  resolved_ips = codes "127.0.0.1" ∷ [];
  authorized = true;
}

permitted-ok : check local_library no_network ad_hoc no_flags ≡ ok permitted
unfolding check targets check_targets check_target figures check_figures resolve_hosts resolve_host
    seconds quot rem wrap64 ◌+ℤ◌ ◌-ℤ◌ is_host_allowed is_destructive_method parse_byte_size
    normalize_allowed_host is_space lower upper validate_dns_name check_labels check_label
    check_chars
permitted-ok = refl

check-is_loopback_host_example :
    ((is_empty local_url.hostname ≡ true) × (is_empty local_url.host ≡ true))
    ⊎ (is_loopback_host one_address local_url.hostname ≡ true)
check-is_loopback_host_example =
    check-is_loopback_host local_library no_network empty_config flags no_flags refl refl ad_hoc-ok
      refl permitted-ok
