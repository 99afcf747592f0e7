-- ===== src/Config/Precedence.antt =====
-- internal/config/precedence.go: the flags of the command line over a configuration.
use daegsa.Prelude.{
  Bool, true, false, List, [], ◌∷◌, Option, none, some, ◌&&◌, ◌||◌, not, is_empty, if◌then◌else◌,
}
use daegsa.Prelude.Int.{ℤ, pos, ltb_ℤ, leb_ℤ, eqb_ℤ}
use daegsa.Prelude.Float.{Floats}
use daegsa.Prelude.Text.{Text, codes, text_eq, is_some}
use daegsa.Prelude.Result.{Result, ok, err, ◌>>=◌}
use daegsa.Config.AllowedHost.{
  HostError, normalize_allowed_host, normalize_allowed_hosts, is_loopback_host,
}
use daegsa.Config.Types.{
  Config, LoadConfig, RequestConfig, model_open, model_closed, legacy_schema_version,
}
use daegsa.Config.Validate.{
  ConfigError, profile_override, invalid_allowed_hosts, Url, ConfigLibrary,
}
use daegsa.Config.Validate.Document.{validate_config}

-- A flag that was not given is empty, zero or nil.
pub record CliFlags (floats : Floats) : Type 0 where
  pub config_file : Text
  pub url : Text
  pub method : Text
  pub model : Text
  pub rate : floats.Float
  pub time_unit : ℤ
  pub users : ℤ
  pub duration : ℤ
  pub timeout : ℤ
  pub max_in_flight : ℤ
  pub response_body_limit : Text
  pub redirects : Text
  pub allowed_hosts : Option (List Text)
  pub allow_destructive : Bool
  pub dry_run : Bool
  pub non_interactive : Bool

abbrev pub text_or : Text → Text → Text
text_or flag t = if is_empty flag then t else flag

abbrev pub positive_or : ℤ → ℤ → ℤ
positive_or flag n = if ltb_ℤ (pos 0) flag then flag else n

-- append([]string(nil), l...) is nil for a slice without elements.
abbrev copied : Option (List Text) → Option (List Text)
copied none = none
copied (some []) = none
copied (some (h ∷ l)) = some (h ∷ l)

abbrev pub has_no_host : Option (List Text) → Bool
has_no_host none = true
has_no_host (some l) = is_empty l

module _ {floats : Floats} (lib : ConfigLibrary floats) where
  open floats use {of_int, lt, le}

  abbrev clear_other_model : Text → LoadConfig floats → LoadConfig floats
  clear_other_model model load =
      if text_eq model model_open
      then record load { users = pos 0; think_time = pos 0 }
      else if text_eq model model_closed
      then record load {
        rate = of_int (pos 0);
        time_unit = pos 0;
        max_in_flight = pos 0;
        segments = [];
      }
      else load

  abbrev with_model : Text → LoadConfig floats → LoadConfig floats
  with_model model load =
      if is_empty model then load else clear_other_model model (record load { model = model })

  abbrev with_rate : floats.Float → LoadConfig floats → Result ConfigError (LoadConfig floats)
  with_rate rate load =
      if lt (of_int (pos 0)) rate
      then (if not (is_empty load.segments)
          then err profile_override
          else ok (record load { rate = rate }))
      else ok load

  abbrev with_duration : ℤ → LoadConfig floats → Result ConfigError (LoadConfig floats)
  with_duration duration load =
      if ltb_ℤ (pos 0) duration
      then (if not (is_empty load.segments)
          then err profile_override
          else ok (record load { duration = duration }))
      else ok load

  unfoldable pub override_load :
      CliFlags floats → LoadConfig floats → Result ConfigError (LoadConfig floats)
  override_load flags load = with_rate flags.rate (with_model flags.model load) >>= λ l.
      with_duration flags.duration (record l {
        time_unit = positive_or flags.time_unit l.time_unit;
        users = positive_or flags.users l.users;
      })
      >>= λ l'. ok (record l' { max_in_flight = positive_or flags.max_in_flight l'.max_in_flight })

  unfoldable pub override_request : CliFlags floats → RequestConfig → RequestConfig
  override_request flags req = record req {
    url = text_or flags.url req.url;
    method = text_or flags.method req.method;
    timeout = positive_or flags.timeout req.timeout;
    response_body_limit = text_or flags.response_body_limit req.response_body_limit;
    redirects = text_or flags.redirects req.redirects;
  }

  abbrev host_flag : Result HostError (Option (List Text)) → Result ConfigError (Option (List Text))
  host_flag (ok hosts) = ok (copied hosts)
  host_flag (err e) = err (invalid_allowed_hosts e)

  unfoldable pub override_hosts :
      Option (List Text) → Option (List Text) → Result ConfigError (Option (List Text))
  override_hosts none hosts = ok hosts
  override_hosts (some flag) hosts = host_flag (normalize_allowed_hosts lib.hosts (some flag) false)

  -- The defaults of a load without a model, and the duration of one without segments.
  abbrev default_model : LoadConfig floats → LoadConfig floats
  default_model load =
      if is_empty load.model
      then (if ltb_ℤ (pos 0) load.users then record load { model = model_closed } else record load {
        model = model_open;
        rate = if le load.rate (of_int (pos 0)) then of_int (pos 1) else load.rate;
        max_in_flight = if leb_ℤ load.max_in_flight (pos 0) then pos 10 else load.max_in_flight;
      })
      else load

  abbrev default_duration : LoadConfig floats → LoadConfig floats
  default_duration load =
      if is_empty load.segments && leb_ℤ load.duration (pos 0)
      then record load { duration = pos 10_000_000_000 }
      else load

  unfoldable pub default_load : LoadConfig floats → LoadConfig floats
  default_load load = default_duration (default_model load)

  abbrev normalized_or_none : Result HostError Text → Option Text
  normalized_or_none (ok host) = some host
  normalized_or_none (err e) = none

  abbrev pub loopback_of : Option Url → Option Text
  loopback_of none = none
  loopback_of (some u) =
      if is_loopback_host lib.hosts u.hostname
      then normalized_or_none (normalize_allowed_host lib.hosts u.hostname false)
      else none

  unfoldable pub loopback_target_host : Text → Option Text
  loopback_target_host url = loopback_of (lib.parse_url url)

  abbrev pub only_host : Option Text → Option (List Text) → Option (List Text)
  only_host none hosts = hosts
  only_host (some host) hosts = some (host ∷ [])

  -- The allowlist of an ad-hoc run of a loopback host.
  unfoldable pub ad_hoc_hosts : CliFlags floats → Text → Option (List Text) → Option (List Text)
  ad_hoc_hosts flags url hosts =
      if is_empty flags.config_file && not (is_some flags.allowed_hosts) && has_no_host hosts
      then only_host (loopback_target_host url) hosts
      else hosts

  -- What follows the overrides and precedes the validation.
  unfoldable pub with_defaults : CliFlags floats → Config floats → Config floats
  with_defaults flags cfg = record cfg {
    schema_version =
        if eqb_ℤ cfg.schema_version (pos 0) then legacy_schema_version else cfg.schema_version;
    name = text_or cfg.name (codes "cli-execution");
    request = record cfg.request { method = text_or cfg.request.method (codes "GET") };
    load = default_load cfg.load;
    safety = record cfg.safety {
      allowed_hosts = ad_hoc_hosts flags cfg.request.url cfg.safety.allowed_hosts;
    };
  }

  unfoldable pub override_config :
      CliFlags floats → Config floats → Result ConfigError (Config floats)
  override_config flags cfg = override_load flags cfg.load >>= λ load.
      override_hosts flags.allowed_hosts cfg.safety.allowed_hosts >>= λ hosts. ok (record cfg {
        request = override_request flags cfg.request;
        load = load;
        safety = record {
          allowed_hosts = hosts;
          allow_non_idempotent = flags.allow_destructive || cfg.safety.allow_non_idempotent;
        };
      })

  unfoldable pub apply_cli_overrides :
      Config floats → Option (CliFlags floats) → Result ConfigError (Config floats)
  apply_cli_overrides cfg none = validate_config lib cfg
  apply_cli_overrides cfg (some flags) = override_config flags cfg >>= λ overridden.
      validate_config lib (with_defaults flags overridden)
