-- ===== src/Safety/Preflight.antt =====
-- internal/safety/preflight.go. The resolver is a parameter, and so is the order in which the loop over
-- the map of hosts meets them: `Network`.
pub mod Targets
pub mod Figures
pub mod Permitted
pub mod Authorized
pub mod Refusals
pub mod Valid
pub mod Loopback
use daegsa.Prelude.{
  ℕ, Bool, true, false, List, [], ◌∷◌, ◌++◌, Option, none, some, ◌&&◌, not, any, is_empty,
  if◌then◌else◌,
}
use daegsa.Prelude.Int.{ℤ, pos, ltb_ℤ}
use daegsa.Prelude.Float.{Floats, seconds}
use daegsa.Prelude.Text.{Text, codes, text_eq}
use daegsa.Prelude.Result.{Result, ok, err, ◌>>=◌}
use daegsa.Profile.Types.{Compilation}
use daegsa.Cli.Exit.{
  Sentinel, safety_refusal, host_not_allowed, destructive_method_unauthorized,
  safety_ceiling_exceeded, dns_preflight_failed,
}
use daegsa.Config.Types.{
  Config, RequestConfig, StepConfig, ScenarioConfig, LoadConfig, SafetyConfig,
}
use daegsa.Config.Bytes.{parse_byte_size}
use daegsa.Config.Validate.{ConfigError, sentinels, Url, ConfigLibrary}
use daegsa.Config.Validate.Load.{compile_load_profile}
use daegsa.Safety.HostPolicy.{
  is_host_allowed, is_destructive_method, max_allowed_duration, max_allowed_response_body_limit,
  max_allowed_rate, max_allowed_users, max_allowed_in_flight,
}

-- A panic of `targets[0]` is the last one.
pub data PreflightError : Type 0 where
  invalid_target target_not_allowed destructive_target : PreflightError
  body_limit_exceeded duration_exceeded rate_exceeded users_exceeded in_flight_exceeded :
      PreflightError
  lookup_failed no_address : PreflightError
  profile_refused : ConfigError → PreflightError
  index_out_of_range : PreflightError

-- The sentinel errors in the chain of an error.
unfoldable pub preflight_sentinels : PreflightError → List Sentinel
preflight_sentinels invalid_target = safety_refusal ∷ []
preflight_sentinels target_not_allowed = safety_refusal ∷ host_not_allowed ∷ []
preflight_sentinels destructive_target = safety_refusal ∷ destructive_method_unauthorized ∷ []
preflight_sentinels lookup_failed = safety_refusal ∷ dns_preflight_failed ∷ []
preflight_sentinels no_address = safety_refusal ∷ dns_preflight_failed ∷ []
preflight_sentinels (profile_refused e) = sentinels e
preflight_sentinels index_out_of_range = []
preflight_sentinels _ = safety_refusal ∷ safety_ceiling_exceeded ∷ []

pub record SafetyFlags : Type 0 where
  pub allow_destructive : Bool
  pub non_interactive : Bool
  pub skip_dns_preflight : Bool

pub record TargetEndpoint : Type 0 where
  pub target_url : Url
  pub host : Text
  pub method : Text
  pub body_limit : Text

abbrev pub allowed_list : Option (List Text) → List Text
allowed_list none = []
allowed_list (some l) = l

abbrev pub unique_after : List Text → List TargetEndpoint → List Text
unique_after seen [] = []
unique_after seen (t ∷ l) =
    let again = unique_after seen l in
    let next = unique_after (t.host ∷ seen) l in
    if is_empty t.host
    then again
    else if any (λ h. text_eq h t.host) seen
    then again
    else t.host ∷ next

module _ {floats : Floats} (lib : ConfigLibrary floats) where
  open floats use {Float, of_int, div, lt}

  pub record PreflightResult : Type 0 where
    pub target_url : Url
    pub method : Text
    pub resolved_ips : List lib.hosts.Ip
    pub authorized : Bool

  pub record Network : Type 0 where
    pub lookup : Text → Option (List lib.hosts.Ip)
    pub in_map_order : List Text → List Text

  abbrev pub target_of : Text → Text → Option Url → Result PreflightError TargetEndpoint
  target_of method body_limit none = err invalid_target
  target_of method body_limit (some u) = ok (record {
    target_url = u;
    host = if is_empty u.hostname then u.host else u.hostname;
    method = method;
    body_limit = body_limit;
  })

  unfoldable pub step_targets : List StepConfig → Result PreflightError (List TargetEndpoint)
  step_targets [] = ok []
  step_targets (step ∷ l) =
      target_of step.method step.response_body_limit (lib.parse_url step.url) >>= λ t.
      step_targets l >>= λ ts. ok (t ∷ ts)

  unfoldable pub targets :
      RequestConfig → Option ScenarioConfig → Result PreflightError (List TargetEndpoint)
  targets req (some scenario) = step_targets scenario.steps
  targets req none =
      target_of req.method req.response_body_limit (lib.parse_url req.url) >>= λ t. ok (t ∷ [])

  abbrev pub exceeds_limit : Option ℤ → Bool
  exceeds_limit none = false
  exceeds_limit (some bytes) = ltb_ℤ (pos max_allowed_response_body_limit) bytes

  -- One round of the loop over the targets.
  unfoldable pub check_target :
      SafetyConfig → SafetyFlags → TargetEndpoint → Result PreflightError (Unit {0})
  check_target safety flags t =
      if not (is_empty t.host)
        && not (is_host_allowed lib.hosts t.host (allowed_list safety.allowed_hosts))
      then err target_not_allowed
      else if is_destructive_method lib.hosts.unicode t.method
          && (not safety.allow_non_idempotent && not flags.allow_destructive)
      then err destructive_target
      else if not (is_empty t.body_limit)
          && exceeds_limit (parse_byte_size lib.hosts.unicode floats lib.parse_float t.body_limit)
      then err body_limit_exceeded
      else ok tt

  unfoldable pub check_targets :
      SafetyConfig → SafetyFlags → List TargetEndpoint → Result PreflightError (Unit {0})
  check_targets safety flags [] = ok tt
  check_targets safety flags (t ∷ l) =
      check_target safety flags t >>= λ _. check_targets safety flags l

  abbrev figures_of : Result ConfigError (Compilation floats) → Result PreflightError (ℤ × Float)
  figures_of (ok c) = ok (c.total_duration, c.peak_target_rps)
  figures_of (err e) = err (profile_refused e)

  -- The effective duration and the peak rate.
  unfoldable pub figures : LoadConfig floats → Result PreflightError (ℤ × Float)
  figures load =
      if is_empty load.segments
      then ok (
        load.duration,
        if ltb_ℤ (pos 0) load.time_unit
            then div load.rate (seconds floats load.time_unit)
            else load.rate,
      )
      else figures_of (compile_load_profile lib.hosts.unicode floats load)

  unfoldable pub check_figures : LoadConfig floats → ℤ × Float → Result PreflightError (Unit {0})
  check_figures load (duration, peak) =
      if ltb_ℤ (pos max_allowed_duration) duration
      then err duration_exceeded
      else if lt (of_int (pos max_allowed_rate)) peak
      then err rate_exceeded
      else if ltb_ℤ (pos max_allowed_users) load.users
      then err users_exceeded
      else if ltb_ℤ (pos max_allowed_in_flight) load.max_in_flight
      then err in_flight_exceeded
      else ok tt

  abbrev looked_up : Option (List lib.hosts.Ip) → Result PreflightError (List lib.hosts.Ip)
  looked_up none = err lookup_failed
  looked_up (some []) = err no_address
  looked_up (some (ip ∷ l)) = ok (ip ∷ l)

  abbrev address_or :
      Option lib.hosts.Ip
      → Result PreflightError (List lib.hosts.Ip)
      → Result PreflightError (List lib.hosts.Ip)
  address_or (some ip) found = ok (ip ∷ [])
  address_or none found = found

  unfoldable pub resolve_host :
      Network → SafetyFlags → Text → Result PreflightError (List lib.hosts.Ip)
  resolve_host net flags host =
      address_or (lib.hosts.parse_ip host)
        (if flags.skip_dns_preflight then ok [] else looked_up (net.lookup host))

  unfoldable pub resolve_hosts :
      Network → SafetyFlags → List Text → Result PreflightError (List lib.hosts.Ip)
  resolve_hosts net flags [] = ok []
  resolve_hosts net flags (host ∷ l) =
      resolve_host net flags host >>= λ ips. resolve_hosts net flags l >>= λ rest. ok (ips ++ rest)

  abbrev pub primary_method : Option ScenarioConfig → Text → Text
  primary_method (some scenario) method = codes "SCENARIO"
  primary_method none method = method

  abbrev result_of :
      Option ScenarioConfig
      → List TargetEndpoint
      → List lib.hosts.Ip
      → Result PreflightError PreflightResult
  result_of scenario [] ips = err index_out_of_range
  result_of scenario (t ∷ l) ips = ok (record {
    target_url = t.target_url;
    method = primary_method scenario t.method;
    resolved_ips = ips;
    authorized = true;
  })

  -- Check, at a configuration that is not nil.
  unfoldable pub check :
      Network → Config floats → SafetyFlags → Result PreflightError PreflightResult
  check net cfg flags = targets cfg.request cfg.scenario >>= λ ts.
      check_targets cfg.safety flags ts >>= λ _. figures cfg.load >>= λ f.
      check_figures cfg.load f >>= λ _.
      resolve_hosts net flags (net.in_map_order (unique_after [] ts)) >>= λ ips.
      result_of cfg.scenario ts ips
