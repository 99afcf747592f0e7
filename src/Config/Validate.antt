-- ===== src/Config/Validate.antt =====
-- internal/config/validate.go: what the checks of a request and of a step share. A check returns the
-- value that the code stores, with its default, or the error. The errors stand for the messages, and
-- `sentinels` are the errors that the messages wrap. url.Parse, strings.EqualFold, regexp.Compile and
-- the functions of strconv are fields of `ConfigLibrary`.
pub mod Request
pub mod Load
pub mod Scenario
pub mod Auth
pub mod Document
pub mod Options
use daegsa.Prelude.{
  ℕ, Bool, true, false, List, [], ◌∷◌, Option, none, some, ◌||◌, ◌&&◌, not, any, is_empty,
  if◌then◌else◌,
}
use daegsa.Prelude.Int.{ℤ, pos, ltb_ℤ, leb_ℤ, eqb_ℤ}
use daegsa.Prelude.Float.{Floats}
use daegsa.Prelude.Text.{Text, codes, text_eq}
use daegsa.Prelude.Strings.{to_upper, trim_space}
use daegsa.Prelude.Result.{Result, ok, err, ◌>>=◌}
use daegsa.Profile.Compile.{ProfileError}
use daegsa.Threshold.Parse.{ThresholdError}
use daegsa.Cli.Exit.{
  Sentinel, config_validation, invalid_schema_version, duplicate_yaml_key, invalid_threshold,
}
use daegsa.Config.AllowedHost.{HostLibrary, HostError}
use daegsa.Config.Types.{
  default_request_timeout, default_response_body_limit, max_response_body_limit_bytes,
  redirect_same_origin, redirect_none, redirect_all,
}
use daegsa.Config.Bytes.{parse_byte_size}

pub data ConfigError : Type 0 where
  unsupported_schema_version segments_required empty_name : ConfigError
  request_and_scenario no_target scenario_not_closed : ConfigError
  empty_url invalid_url empty_method unsupported_method negative_timeout : ConfigError
  invalid_status invalid_body_limit zero_body_limit body_limit_too_large invalid_redirects :
      ConfigError
  invalid_model negative_graceful_stop no_max_in_flight foreign_field segments_need_version :
      ConfigError
  no_rate no_duration no_users negative_think_time : ConfigError
  segment_count segment_name duplicate_segment segment_stage segment_duration : ConfigError
  segment_rates no_measured_segment : ConfigError
  invalid_auth : ConfigError
  scenario_name no_steps too_many_steps step_name duplicate_step : ConfigError
  invalid_on_failure invalid_extract : ConfigError
  duplicate_key malformed profile_override : ConfigError
  in_step : Text → ConfigError → ConfigError
  invalid_profile : ProfileError → ConfigError
  invalid_threshold_rule : ThresholdError → ConfigError
  invalid_allowed_hosts : HostError → ConfigError

-- The sentinel errors in the chain of an error.
unfoldable pub sentinels : ConfigError → List Sentinel
sentinels unsupported_schema_version = invalid_schema_version ∷ []
sentinels duplicate_key = duplicate_yaml_key ∷ []
sentinels (in_step name e) = sentinels e
sentinels (invalid_threshold_rule e) = config_validation ∷ invalid_threshold ∷ []
sentinels _ = config_validation ∷ []

-- What the code reads of a url.URL.
pub record Url : Type 0 where
  pub scheme : Text
  pub host : Text
  pub hostname : Text

pub record ConfigLibrary (floats : Floats) : Type 1 where
  pub hosts : HostLibrary
  pub parse_float : Text → Option floats.Float
  pub parse_int : Text → Option ℤ
  pub parse_url : Text → Option Url
  pub equal_fold : Text → Text → Bool
  pub regex_compiles : Text → Bool

abbrev pub one_of : Text → List Text → Bool
one_of s l = any (λ t. text_eq s t) l

abbrev pub methods : List Text
methods =
    codes "GET"
    ∷ codes "POST"
    ∷ codes "PUT"
    ∷ codes "PATCH"
    ∷ codes "DELETE"
    ∷ codes "HEAD"
    ∷ codes "OPTIONS"
    ∷ []

abbrev pub redirect_policies : List Text
redirect_policies = redirect_same_origin ∷ redirect_none ∷ redirect_all ∷ []

unfoldable pub check_timeout : ℤ → Result ConfigError ℤ
check_timeout timeout =
    if ltb_ℤ timeout (pos 0)
    then err negative_timeout
    else ok (if eqb_ℤ timeout (pos 0) then default_request_timeout else timeout)

abbrev pub is_status : ℤ → Bool
is_status s = not (ltb_ℤ s (pos 100) || ltb_ℤ (pos 599) s)

abbrev pub all_statuses : List ℤ → Bool
all_statuses [] = true
all_statuses (s ∷ l) = is_status s && all_statuses l

unfoldable pub check_statuses : List ℤ → Result ConfigError (List ℤ)
check_statuses l =
    if is_empty l then ok (pos 200 ∷ []) else if all_statuses l then ok l else err invalid_status

unfoldable pub check_redirects : Text → Result ConfigError Text
check_redirects s =
    let policy = if is_empty s then redirect_same_origin else s in
    if one_of policy redirect_policies then ok policy else err invalid_redirects

-- A method in upper case; a step without a method has GET.
unfoldable pub check_method : Text → Result ConfigError Text
check_method method = if one_of method methods then ok method else err unsupported_method

module _ {floats : Floats} (lib : ConfigLibrary floats) where
  abbrev pub normal_method : Text → Text
  normal_method method = to_upper lib.hosts.unicode (trim_space lib.hosts.unicode method)

  abbrev limit_in_range : Text → Option ℤ → Result ConfigError Text
  limit_in_range limit none = err invalid_body_limit
  limit_in_range limit (some bytes) =
      if leb_ℤ bytes (pos 0)
      then err zero_body_limit
      else if ltb_ℤ max_response_body_limit_bytes bytes
      then err body_limit_too_large
      else ok limit

  unfoldable pub check_body_limit : Text → Result ConfigError Text
  check_body_limit s =
      let limit = if is_empty s then default_response_body_limit else s in
      limit_in_range limit (parse_byte_size lib.hosts.unicode floats lib.parse_float limit)
