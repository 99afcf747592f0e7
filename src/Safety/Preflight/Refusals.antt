-- ===== src/Safety/Preflight/Refusals.antt =====
-- The errors of the parts of Check of internal/safety/preflight.go wrap ErrSafetyRefusal.
use daegsa.Prelude.{
  Bool, true, false, List, [], ◌∷◌, Option, none, some, ◌≡◌, inl, inr, refl, subst, not, ◌&&◌,
  is_empty, if◌then◌else◌,
}
use daegsa.Prelude.Int.{ℤ, pos, ltb_ℤ}
use daegsa.Prelude.Float.{Floats}
use daegsa.Prelude.Text.{Text}
use daegsa.Prelude.Result.{Result, ok, err, err_parts, err-injective}
use daegsa.Cli.Exit.{Sentinel, safety_refusal}
use daegsa.Config.Types.{LoadConfig, SafetyConfig, ScenarioConfig, StepConfig, RequestConfig}
use daegsa.Config.Validate.{Url, ConfigLibrary}
use daegsa.Config.Bytes.{parse_byte_size}
use daegsa.Safety.HostPolicy.{
  is_host_allowed, is_destructive_method, max_allowed_duration, max_allowed_rate, max_allowed_users,
  max_allowed_in_flight,
}
use daegsa.Safety.Preflight.{
  PreflightError, target_not_allowed, destructive_target, body_limit_exceeded, duration_exceeded,
  rate_exceeded, users_exceeded, in_flight_exceeded, lookup_failed, no_address, preflight_sentinels,
  SafetyFlags, TargetEndpoint, allowed_list, exceeds_limit, Network, target_of, step_targets,
  targets, check_target, check_targets, check_figures, looked_up, address_or, resolve_host,
  resolve_hosts,
}

-- The error wraps ErrSafetyRefusal.
abbrev pub IsRefusal : PreflightError → Type 0
IsRefusal e = (l : List Sentinel) × (preflight_sentinels e ≡ safety_refusal ∷ l)

IsRefusal-of : {e : PreflightError} (e' : PreflightError) → IsRefusal e' → e' ≡ e → IsRefusal e
IsRefusal-of e' h same = subst IsRefusal same h

module _ {floats : Floats} (lib : ConfigLibrary floats) where
  no-IsRefusal :
      {e : PreflightError}
      → ◌≡◌ {A = Result PreflightError (Unit {0})} (ok tt) (err e)
      → IsRefusal e
  no-IsRefusal h = cc

  target-IsRefusal :
      (method limit : Text) (o : Option Url) {e : PreflightError}
      → target_of lib method limit o ≡ err e
      → IsRefusal e
  unfolding preflight_sentinels
  target-IsRefusal method limit none {e} h = subst IsRefusal (err-injective h) ([], refl)
  target-IsRefusal method limit (some u) h = cc

  steps-IsRefusal :
      (l : List StepConfig) {e : PreflightError} → step_targets lib l ≡ err e → IsRefusal e
  unfolding step_targets
  steps-IsRefusal [] h = cc
  steps-IsRefusal (step ∷ l) h =
      elim (err_parts (target_of lib step.method step.response_body_limit (lib.parse_url step.url))
        h) [
          | inl q ↦ target-IsRefusal step.method step.response_body_limit (lib.parse_url step.url) q
          | inr (_, _, h1) ↦ elim (err_parts (step_targets lib l) h1) [
            | inl q ↦ steps-IsRefusal l q
            | inr (_, _, never) ↦ cc
          ]
        ]

  pub targets-IsRefusal :
      (req : RequestConfig) (o : Option ScenarioConfig) {e : PreflightError}
      → targets lib req o ≡ err e
      → IsRefusal e
  unfolding targets
  targets-IsRefusal req (some scenario) h = steps-IsRefusal scenario.steps h
  targets-IsRefusal req none h =
      elim (err_parts (target_of lib req.method req.response_body_limit (lib.parse_url req.url))
        h) [
          | inl q ↦ target-IsRefusal req.method req.response_body_limit (lib.parse_url req.url) q
          | inr (_, _, never) ↦ cc
        ]

  check-IsRefusal :
      (safety : SafetyConfig) (flags : SafetyFlags) (t : TargetEndpoint) {e : PreflightError}
      → check_target lib safety flags t ≡ err e
      → IsRefusal e
  unfolding check_target preflight_sentinels
  check-IsRefusal safety flags t {e} h =
      go
        (not (is_empty t.host)
          && not (is_host_allowed lib.hosts t.host (allowed_list safety.allowed_hosts)))
        (is_destructive_method lib.hosts.unicode t.method
          && (not safety.allow_non_idempotent && not flags.allow_destructive))
        (not (is_empty t.body_limit)
          && exceeds_limit lib
              (parse_byte_size lib.hosts.unicode floats lib.parse_float t.body_limit))
        h
    where
      go :
          (a b c : Bool)
          → ◌≡◌ {A = Result PreflightError (Unit {0})}
              (if a
                then err target_not_allowed
                else if b
                then err destructive_target
                else if c
                then err body_limit_exceeded
                else ok tt)
              (err e)
          → IsRefusal e
      go true b c h = IsRefusal-of target_not_allowed (_, refl) (err-injective h)
      go false true c h = IsRefusal-of destructive_target (_, refl) (err-injective h)
      go false false true h = IsRefusal-of body_limit_exceeded (_, refl) (err-injective h)
      go false false false h = no-IsRefusal h

  pub checks-IsRefusal :
      (safety : SafetyConfig) (flags : SafetyFlags) (l : List TargetEndpoint) {e : PreflightError}
      → check_targets lib safety flags l ≡ err e
      → IsRefusal e
  unfolding check_targets
  checks-IsRefusal safety flags [] h = cc
  checks-IsRefusal safety flags (t ∷ l) h = elim (err_parts (check_target lib safety flags t) h) [
    | inl q ↦ check-IsRefusal safety flags t q
    | inr (_, _, h1) ↦ checks-IsRefusal safety flags l h1
  ]

  pub figures-IsRefusal :
      (load : LoadConfig floats) (f : ℤ × floats.Float) {e : PreflightError}
      → check_figures lib load f ≡ err e
      → IsRefusal e
  unfolding check_figures preflight_sentinels
  figures-IsRefusal load (duration, peak) {e} h =
      go (ltb_ℤ (pos max_allowed_duration) duration)
        (floats.lt (floats.of_int (pos max_allowed_rate)) peak)
        (ltb_ℤ (pos max_allowed_users) load.users)
        (ltb_ℤ (pos max_allowed_in_flight) load.max_in_flight) h
    where
      go :
          (a b c d : Bool)
          → ◌≡◌ {A = Result PreflightError (Unit {0})}
              (if a
                then err duration_exceeded
                else if b
                then err rate_exceeded
                else if c
                then err users_exceeded
                else if d
                then err in_flight_exceeded
                else ok tt)
              (err e)
          → IsRefusal e
      go true b c d h = IsRefusal-of duration_exceeded (_, refl) (err-injective h)
      go false true c d h = IsRefusal-of rate_exceeded (_, refl) (err-injective h)
      go false false true d h = IsRefusal-of users_exceeded (_, refl) (err-injective h)
      go false false false true h = IsRefusal-of in_flight_exceeded (_, refl) (err-injective h)
      go false false false false h = no-IsRefusal h

  resolve-IsRefusal :
      (net : Network lib) (flags : SafetyFlags) (host : Text) {e : PreflightError}
      → resolve_host lib net flags host ≡ err e
      → IsRefusal e
  unfolding resolve_host preflight_sentinels
  resolve-IsRefusal net flags host {e} h =
      by_address (lib.hosts.parse_ip host) flags.skip_dns_preflight (net.lookup host) h
    where
      by_address :
          (o : Option lib.hosts.Ip) (skip : Bool) (found : Option (List lib.hosts.Ip))
          → address_or lib o (if skip then ok [] else looked_up lib found) ≡ err e
          → IsRefusal e
      by_address (some ip) skip found h = cc
      by_address none true found h = cc
      by_address none false none h = IsRefusal-of lookup_failed (_, refl) (err-injective h)
      by_address none false (some []) h = IsRefusal-of no_address (_, refl) (err-injective h)
      by_address none false (some (ip ∷ l)) h = cc

  pub hosts-IsRefusal :
      (net : Network lib) (flags : SafetyFlags) (l : List Text) {e : PreflightError}
      → resolve_hosts lib net flags l ≡ err e
      → IsRefusal e
  unfolding resolve_hosts
  hosts-IsRefusal net flags [] h = cc
  hosts-IsRefusal net flags (host ∷ l) h = elim (err_parts (resolve_host lib net flags host) h) [
    | inl q ↦ resolve-IsRefusal net flags host q
    | inr (_, _, h1) ↦ elim (err_parts (resolve_hosts lib net flags l) h1) [
      | inl q ↦ hosts-IsRefusal net flags l q
      | inr (_, _, never) ↦ cc
    ]
  ]
