-- ===== src/Config/Types.antt =====
-- internal/config/types.go and the names of internal/core/model.go and redirect.go: the document of a
-- configuration, as it is after decoding. A Duration is an integer of nanoseconds, and a map is the
-- list of its entries, in the order in which a loop meets them.
use daegsa.Prelude.{ℕ, Bool, List, [], ◌∷◌, Option, map}
use daegsa.Prelude.Int.{ℤ, pos}
use daegsa.Prelude.Float.{Floats}
use daegsa.Prelude.Text.{Text, codes}
use daegsa.Profile.Types.{SourceSegment, stage_measured}

abbrev pub legacy_schema_version : ℤ
legacy_schema_version = pos 1

abbrev pub expected_schema_version : ℤ
expected_schema_version = pos 2

abbrev pub default_request_timeout : ℤ
default_request_timeout = pos 10_000_000_000

abbrev pub default_graceful_stop : ℤ
default_graceful_stop = pos 10_000_000_000

abbrev pub default_time_unit : ℤ
default_time_unit = pos 1_000_000_000

abbrev pub default_response_body_limit : Text
default_response_body_limit = codes "1MiB"

abbrev pub max_response_body_limit_bytes : ℤ
max_response_body_limit_bytes = pos 52_428_800

abbrev pub model_open : Text
model_open = codes "open"

abbrev pub model_closed : Text
model_closed = codes "closed"

abbrev pub redirect_same_origin : Text
redirect_same_origin = codes "same-origin"

abbrev pub redirect_none : Text
redirect_none = codes "none"

abbrev pub redirect_all : Text
redirect_all = codes "all"

abbrev pub auth_none : Text
auth_none = codes "none"

abbrev pub auth_bearer : Text
auth_bearer = codes "bearer"

abbrev pub auth_custom_header : Text
auth_custom_header = codes "custom_header"

abbrev pub auth_token_pool : Text
auth_token_pool = codes "token_pool"

abbrev pub auth_basic : Text
auth_basic = codes "basic"

abbrev pub max_scenario_steps : ℕ
max_scenario_steps = 50

abbrev pub on_failure_policies : List Text
on_failure_policies = codes "stop" ∷ codes "abort_vu" ∷ codes "continue" ∷ []

abbrev pub extract_source_regex : Text
extract_source_regex = codes "regex"

abbrev pub extract_sources : List Text
extract_sources =
    codes "json" ∷ codes "jsonpath" ∷ codes "header" ∷ codes "cookie" ∷ extract_source_regex ∷ []

pub record ExtractRuleConfig : Type 0 where
  pub source : Text
  pub expression : Text

pub record RequestConfig : Type 0 where
  pub url : Text
  pub method : Text
  pub headers : List (Text × Text)
  pub expected_statuses : List ℤ
  pub timeout : ℤ
  pub response_body_limit : Text
  pub redirects : Text

pub record StepConfig : Type 0 where
  pub name : Text
  pub url : Text
  pub method : Text
  pub headers : List (Text × Text)
  pub body : Text
  pub expected_statuses : List ℤ
  pub timeout : ℤ
  pub response_body_limit : Text
  pub redirects : Text
  pub think_time : ℤ
  pub extract : List (Text × ExtractRuleConfig)
  pub on_failure : Text

pub record ScenarioConfig : Type 0 where
  pub name : Text
  pub steps : List StepConfig

pub record AuthConfig : Type 0 where
  pub kind : Text
  pub token : Text
  pub header_name : Text
  pub username : Text
  pub password : Text
  pub token_pool : List Text
  pub cookie_jar : Bool

-- `none` is a nil slice.
pub record SafetyConfig : Type 0 where
  pub allowed_hosts : Option (List Text)
  pub allow_non_idempotent : Bool

module _ (floats : Floats) where
  pub record ProfileSegmentConfig : Type 0 where
    pub name : Text
    pub stage : Text
    pub duration : ℤ
    pub rate : floats.Float
    pub start_rate : floats.Float
    pub end_rate : floats.Float
    pub steps : ℤ

  pub record LoadConfig : Type 0 where
    pub model : Text
    pub rate : floats.Float
    pub time_unit : ℤ
    pub max_in_flight : ℤ
    pub duration : ℤ
    pub graceful_stop : ℤ
    pub users : ℤ
    pub think_time : ℤ
    pub segments : List (ProfileSegmentConfig)

  -- A request whose URL is empty is none.
  pub record Config : Type 0 where
    pub schema_version : ℤ
    pub name : Text
    pub request : RequestConfig
    pub scenario : Option ScenarioConfig
    pub load : LoadConfig
    pub treat_429_as_expected : Bool
    pub auth : AuthConfig
    pub thresholds : List (Text × Text)
    pub safety : SafetyConfig

  -- The source segment of the profile compiler that stands for a segment of the document.
  abbrev pub source_segment : ProfileSegmentConfig → SourceSegment floats
  source_segment s = record {
    name = s.name;
    stage = s.stage;
    duration = s.duration;
    rate = s.rate;
    start_rate = s.start_rate;
    end_rate = s.end_rate;
    steps = s.steps;
  }

  abbrev measured_segment : LoadConfig → SourceSegment floats
  measured_segment load = record {
    name = codes "measured";
    stage = stage_measured;
    duration = load.duration;
    rate = load.rate;
    start_rate = floats.of_int (pos 0);
    end_rate = floats.of_int (pos 0);
    steps = pos 0;
  }

  abbrev pub segments_or : LoadConfig → List ProfileSegmentConfig → List (SourceSegment floats)
  segments_or load [] = measured_segment load ∷ []
  segments_or load (s ∷ l) = map source_segment (s ∷ l)

  -- What CompileLoadProfile hands to the compiler.
  unfoldable pub profile_source : LoadConfig → List (SourceSegment floats)
  profile_source load = segments_or load load.segments
