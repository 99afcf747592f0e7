-- ===== src/Config/Validate/Document.antt =====
-- ValidateConfig, checkDuplicateKeys and ParseAndValidateYAML of internal/config/validate.go. The tree
-- of a YAML document and its decoding are gopkg.in/yaml.v3's: `YamlLibrary`.
pub mod Keys
pub mod Parts
use daegsa.Prelude.{
  Bool, true, false, List, [], ◌∷◌, Option, none, some, ◌||◌, ◌&&◌, not, any, is_empty,
  if◌then◌else◌,
}
use daegsa.Prelude.Int.{ℤ, pos, eqb_ℤ}
use daegsa.Prelude.Float.{Floats}
use daegsa.Prelude.Text.{Text, text_eq, is_some}
use daegsa.Prelude.Strings.{trim_space}
use daegsa.Prelude.Result.{Result, ok, err, ◌>>=◌}
use daegsa.Threshold.Types.{Threshold}
use daegsa.Threshold.Parse.{ThresholdError, parse_threshold}
use daegsa.Config.AllowedHost.{HostError, normalize_allowed_hosts}
use daegsa.Config.Types.{
  Config, RequestConfig, ScenarioConfig, SafetyConfig, legacy_schema_version,
  expected_schema_version, model_closed,
}
use daegsa.Config.Validate.{
  ConfigError, unsupported_schema_version, segments_required, empty_name, request_and_scenario,
  no_target, scenario_not_closed, duplicate_key, invalid_threshold_rule, invalid_allowed_hosts,
  malformed, ConfigLibrary,
}
use daegsa.Config.Validate.Request.{validate_request_config}
use daegsa.Config.Validate.Load.{validate_load_config}
use daegsa.Config.Validate.Scenario.{validate_scenario_config}
use daegsa.Config.Validate.Auth.{validate_auth}

-- A node of a YAML tree; `scalar` stands for scalars and aliases, into which the code does not go.
mutual
  pub data Node : Type 0 where
    document : Nodes → Node
    mapping : Fields → Node
    sequence : Nodes → Node
    scalar : Node

  pub data Nodes : Type 0 where
    nil : Nodes
    cons : Node → Nodes → Nodes

  pub data Fields : Type 0 where
    end : Fields
    field : Text → Node → Fields → Fields

abbrev pub first_error : Option ConfigError → Option ConfigError → Option ConfigError
first_error none next = next
first_error (some e) next = some e

unfoldable mutual
  pub check_duplicate_keys : Node → Option ConfigError
  check_duplicate_keys (document l) = check_items l
  check_duplicate_keys (mapping l) = check_fields [] l
  check_duplicate_keys (sequence l) = check_items l
  check_duplicate_keys scalar = none

  pub check_items : Nodes → Option ConfigError
  check_items nil = none
  check_items (cons n l) = first_error (check_duplicate_keys n) (check_items l)

  -- The keys before are `seen`.
  pub check_fields : List Text → Fields → Option ConfigError
  check_fields seen end = none
  check_fields seen (field key n l) =
      first_error (if any (λ k. text_eq k key) seen then some duplicate_key else none)
        (first_error (check_duplicate_keys n) (check_fields (key ∷ seen) l))

module _ {floats : Floats} (lib : ConfigLibrary floats) where
  abbrev threshold_then :
      Result ThresholdError (Threshold floats)
      → Result ConfigError (Unit {0})
      → Result ConfigError (Unit {0})
  threshold_then (ok t) next = next
  threshold_then (err e) next = err (invalid_threshold_rule e)

  unfoldable pub validate_thresholds : List (Text × Text) → Result ConfigError (Unit {0})
  validate_thresholds [] = ok tt
  validate_thresholds ((name, expr) ∷ l) =
      threshold_then
        (parse_threshold lib.hosts.unicode floats lib.parse_float lib.parse_int name expr)
        (validate_thresholds l)

  -- The request is checked where there is one.
  unfoldable pub check_request : Bool → RequestConfig → Result ConfigError RequestConfig
  check_request true req = validate_request_config lib req
  check_request false req = ok req

  unfoldable pub check_scenario :
      Text → Option ScenarioConfig → Result ConfigError (Option ScenarioConfig)
  check_scenario model none = ok none
  check_scenario model (some s) = validate_scenario_config lib s >>= λ s'.
      if not (text_eq model model_closed) then err scenario_not_closed else ok (some s')

  abbrev hosts_result :
      Result HostError (Option (List Text)) → Result ConfigError (Option (List Text))
  hosts_result (ok hosts) = ok hosts
  hosts_result (err e) = err (invalid_allowed_hosts e)

  unfoldable pub check_safety : SafetyConfig → Result ConfigError SafetyConfig
  check_safety s =
      hosts_result (normalize_allowed_hosts lib.hosts s.allowed_hosts true) >>= λ hosts.
      ok (record s { allowed_hosts = hosts })

  abbrev pub has_request : Config floats → Bool
  has_request cfg = not (is_empty (trim_space lib.hosts.unicode cfg.request.url))

  -- The checks after those of the version, the name and the target.
  unfoldable pub check_parts : Config floats → Result ConfigError (Config floats)
  check_parts cfg = check_request (has_request cfg) cfg.request >>= λ request.
      check_scenario cfg.load.model cfg.scenario >>= λ scenario.
      validate_load_config lib.hosts.unicode floats cfg.load cfg.schema_version >>= λ load.
      validate_thresholds cfg.thresholds >>= λ _. validate_auth lib cfg.auth >>= λ auth.
      check_safety cfg.safety >>= λ safety. ok (record cfg {
        request = request;
        scenario = scenario;
        load = load;
        auth = auth;
        safety = safety;
      })

  unfoldable pub validate_config : Config floats → Result ConfigError (Config floats)
  validate_config cfg =
      if not (eqb_ℤ cfg.schema_version legacy_schema_version)
        && not (eqb_ℤ cfg.schema_version expected_schema_version)
      then err unsupported_schema_version
      else if eqb_ℤ cfg.schema_version expected_schema_version && is_empty cfg.load.segments
      then err segments_required
      else if is_empty (trim_space lib.hosts.unicode cfg.name)
      then err empty_name
      else if has_request cfg && is_some cfg.scenario
      then err request_and_scenario
      else if not (has_request cfg) && not (is_some cfg.scenario)
      then err no_target
      else check_parts cfg

  -- yaml.Unmarshal to a tree and the strict decoder; `none` is an error.
  pub record YamlLibrary : Type 0 where
    pub parse_tree : Text → Option Node
    pub decode : Text → Option (Config floats)

  abbrev decoded : Option (Config floats) → Result ConfigError (Config floats)
  decoded none = err malformed
  decoded (some cfg) = validate_config cfg

  abbrev no_duplicate :
      Option ConfigError → Option (Config floats) → Result ConfigError (Config floats)
  no_duplicate (some e) cfg = err e
  no_duplicate none cfg = decoded cfg

  abbrev parsed : Option Node → Option (Config floats) → Result ConfigError (Config floats)
  parsed none cfg = err malformed
  parsed (some tree) cfg = no_duplicate (check_duplicate_keys tree) cfg

  unfoldable pub parse_and_validate_yaml : YamlLibrary → Text → Result ConfigError (Config floats)
  parse_and_validate_yaml yaml source = parsed (yaml.parse_tree source) (yaml.decode source)
