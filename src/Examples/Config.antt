-- ===== src/Examples/Config.antt =====
-- A small configuration, its parts, and a tree with a repeated key.
use daegsa.Prelude.{true, false, [], ◌∷◌, none, some, ◌≡◌, ◌↔◌, refl, if◌then◌else◌}
use daegsa.Prelude.Int.{pos, quot, rem, ◌+ℤ◌, ◌-ℤ◌}
use daegsa.Prelude.Word.{wrap64}
use daegsa.Prelude.Float.{seconds}
use daegsa.Prelude.Text.{Text, codes, text_eq}
use daegsa.Prelude.Strings.{lower, upper, is_space}
use daegsa.Prelude.Result.{Result, ok, err}
use daegsa.Profile.Compile.{compile}
use daegsa.Config.AllowedHost.{
  normalize_allowed_host, normalize_allowed_hosts, check_labels, check_label, check_chars,
  validate_dns_name,
}
use daegsa.Config.Types.{
  Config, RequestConfig, ScenarioConfig, StepConfig, LoadConfig, ProfileSegmentConfig,
  profile_source, model_open,
}
use daegsa.Config.Bytes.{parse_byte_size}
use daegsa.Config.Validate.{
  ConfigError, ConfigLibrary, check_timeout, check_statuses, check_redirects, check_method,
  check_body_limit,
}
use daegsa.Config.Validate.Request.{check_options, validate_request_config}
use daegsa.Config.Validate.Request.Normal.{IsRequest, validate_request_config-IsRequest}
use daegsa.Config.Validate.Load.{
  stage_rank, check_ranked, check_segment, check_segments, validate_profile_segments,
  compile_load_profile, check_open_segments, validate_open, validate_load_config,
}
use daegsa.Config.Validate.Load.Normal.{validate_load_config_again}
use daegsa.Config.Validate.Load.Segments.{IsProfile, validate_profile_segments-iff-IsProfile}
use daegsa.Config.Validate.Scenario.{
  check_on_failure, check_extract, check_step_options, validate_step_config, check_steps,
  validate_scenario_config,
}
use daegsa.Config.Validate.Scenario.Normal.{IsScenario, validate_scenario_config-IsScenario}
use daegsa.Config.Validate.Auth.{check_auth, validate_auth}
use daegsa.Config.Validate.Document.{
  Node, document, mapping, sequence, scalar, nil, cons, end, field, check_duplicate_keys,
  validate_thresholds, check_request, check_scenario, check_safety, check_parts, validate_config,
}
use daegsa.Config.Validate.Document.Keys.{HasDistinctKeys, check_duplicate_keys-iff-HasDistinctKeys}
use daegsa.Config.Validate.Document.Parts.{IsConfig, validate_config-IsConfig}
use daegsa.Examples.Hosts.{one_address}
use daegsa.Examples.Profile.{whole}

abbrev pub target : Text
target = codes "https://api.example.org/"

-- One URL and one number are known.
abbrev pub one_url : ConfigLibrary whole
one_url = record {
  hosts = one_address;
  parse_float = λ s. if text_eq s (codes "1") then some (pos 1) else none;
  parse_int = λ _. none;
  parse_url = λ s.
      if text_eq s target
      then some (record {
        scheme = codes "https";
        host = codes "api.example.org";
        hostname = codes "api.example.org";
      })
      else none;
  equal_fold = text_eq;
  regex_compiles = λ _. true;
}

abbrev request : RequestConfig
request = record {
  url = target;
  method = codes " get";
  headers = [];
  expected_statuses = [];
  timeout = pos 0;
  response_body_limit = [];
  redirects = [];
}

abbrev request_of : Result ConfigError RequestConfig → RequestConfig
request_of (ok r) = r
request_of (err _) = request

abbrev valid_request : RequestConfig
unfolding validate_request_config
valid_request = request_of (validate_request_config one_url request)

request-ok : validate_request_config one_url request ≡ ok valid_request
unfolding validate_request_config check_options check_method check_timeout check_statuses
    check_redirects check_body_limit parse_byte_size is_space upper lower
request-ok = refl

validate_request_config-IsRequest_example :
    IsRequest one_url valid_request
    × (validate_request_config one_url valid_request ≡ ok valid_request)
validate_request_config-IsRequest_example =
    validate_request_config-IsRequest one_url request request-ok

abbrev segment : ProfileSegmentConfig whole
segment = record {
  name = codes "flat";
  stage = codes "measured";
  duration = pos 5_000_000_000;
  rate = pos 6;
  start_rate = pos 0;
  end_rate = pos 0;
  steps = pos 0;
}

validate_profile_segments-iff-IsProfile_example :
    (validate_profile_segments one_address.unicode whole (segment ∷ []) ≡ ok tt)
    ↔ IsProfile one_address.unicode whole (segment ∷ [])
validate_profile_segments-iff-IsProfile_example =
    validate_profile_segments-iff-IsProfile one_address.unicode whole (segment ∷ [])

abbrev pub load : LoadConfig whole
load = record {
  model = model_open;
  rate = pos 0;
  time_unit = pos 0;
  max_in_flight = pos 10;
  duration = pos 0;
  graceful_stop = pos 0;
  users = pos 0;
  think_time = pos 0;
  segments = segment ∷ [];
}

abbrev pub valid_load : LoadConfig whole
valid_load = record load { time_unit = pos 1_000_000_000; graceful_stop = pos 10_000_000_000 }

pub load-ok : validate_load_config one_address.unicode whole load (pos 2) ≡ ok valid_load
unfolding validate_load_config validate_open check_open_segments validate_profile_segments
    check_segments check_segment check_ranked stage_rank compile_load_profile compile profile_source
    is_space seconds quot rem wrap64 ◌+ℤ◌ ◌-ℤ◌
load-ok = refl

validate_load_config_again_example :
    validate_load_config one_address.unicode whole valid_load (pos 2) ≡ ok valid_load
validate_load_config_again_example =
    validate_load_config_again one_address.unicode whole load (pos 2) load-ok

abbrev step : StepConfig
step = record {
  name = codes " login ";
  url = target;
  method = [];
  headers = [];
  body = [];
  expected_statuses = pos 204 ∷ [];
  timeout = pos 0;
  response_body_limit = [];
  redirects = codes "none";
  think_time = pos 0;
  extract = (codes "token", record { source = codes "json"; expression = codes "$.token" }) ∷ [];
  on_failure = codes "Continue";
}

abbrev scenario : ScenarioConfig
scenario = record { name = codes "two"; steps = step ∷ record step { name = codes "again" } ∷ [] }

abbrev scenario_of : Result ConfigError ScenarioConfig → ScenarioConfig
scenario_of (ok s) = s
scenario_of (err _) = scenario

abbrev valid_scenario : ScenarioConfig
unfolding validate_scenario_config
valid_scenario = scenario_of (validate_scenario_config one_url scenario)

scenario-ok : validate_scenario_config one_url scenario ≡ ok valid_scenario
unfolding validate_scenario_config check_steps validate_step_config check_step_options check_extract
    check_on_failure check_method check_timeout check_statuses check_redirects check_body_limit
    parse_byte_size is_space upper lower
scenario-ok = refl

validate_scenario_config-IsScenario_example :
    IsScenario one_url valid_scenario
    × (validate_scenario_config one_url valid_scenario ≡ ok valid_scenario)
validate_scenario_config-IsScenario_example =
    validate_scenario_config-IsScenario one_url scenario scenario-ok

-- A mapping in a sequence has a key twice.
abbrev twice : Node
twice = document (
    cons
      (mapping (
        field (codes "steps")
          (sequence
            (cons (mapping (field (codes "url") scalar (field (codes "url") scalar end))) nil))
          end))
      nil)

check_duplicate_keys-iff-HasDistinctKeys_example :
    (check_duplicate_keys twice ≡ none) ↔ HasDistinctKeys twice
check_duplicate_keys-iff-HasDistinctKeys_example = check_duplicate_keys-iff-HasDistinctKeys twice

abbrev pub config : Config whole
config = record {
  schema_version = pos 2;
  name = codes "smoke";
  request = request;
  scenario = none;
  load = load;
  treat_429_as_expected = false;
  auth = record {
    kind = [];
    token = [];
    header_name = [];
    username = [];
    password = [];
    token_pool = [];
    cookie_jar = false;
  };
  thresholds = [];
  safety = record {
    allowed_hosts = some (codes "api.example.org" ∷ []);
    allow_non_idempotent = false;
  };
}

-- The same with its defaults.
abbrev pub valid_config : Config whole
valid_config = record config {
  request = record request {
    method = codes "GET";
    expected_statuses = pos 200 ∷ [];
    timeout = pos 10_000_000_000;
    response_body_limit = codes "1MiB";
    redirects = codes "same-origin";
  };
  load = valid_load;
  auth = record config.auth { kind = codes "none" };
}

pub config-ok : validate_config one_url config ≡ ok valid_config
unfolding validate_config check_parts check_request check_scenario check_safety validate_thresholds
    validate_auth check_auth validate_request_config check_options check_method check_timeout
    check_statuses check_redirects check_body_limit parse_byte_size validate_load_config
    validate_open check_open_segments validate_profile_segments check_segments check_segment
    check_ranked stage_rank compile_load_profile compile profile_source seconds quot rem wrap64 ◌+ℤ◌
    ◌-ℤ◌ normalize_allowed_hosts normalize_allowed_host is_space lower upper validate_dns_name
    check_labels check_label check_chars
config-ok = refl

validate_config-IsConfig_example : IsConfig one_url valid_config
validate_config-IsConfig_example = validate_config-IsConfig one_url config config-ok
