-- ===== src/Safety/Preflight/Loopback.antt =====
-- What a command that is given no allowlist may reach: ApplyCLIOverrides of
-- internal/config/precedence.go followed by Check of internal/safety/preflight.go.
use daegsa.Prelude.{
  Bool, true, false, List, [], ◌∷◌, Option, none, some, ◌≡◌, ◌⊎◌, inl, inr, refl, sym, ◌∙◌, ap,
  subst, not, ◌&&◌, is_empty, Bool-cases, if◌then◌else◌, some_inj, All,
}
use daegsa.Prelude.Float.{Floats}
use daegsa.Prelude.Text.{Text, is_some}
use daegsa.Prelude.Result.{ok, ◌>>=◌, ok_parts, ok-injective}
use daegsa.Config.AllowedHost.{normalize_allowed_hosts, is_loopback_host}
use daegsa.Config.Types.{Config, RequestConfig, ScenarioConfig, SafetyConfig}
use daegsa.Config.Validate.{Url, ConfigLibrary}
use daegsa.Config.Validate.Document.Parts.{validate_config-Keeps}
use daegsa.Config.Precedence.{
  CliFlags, has_no_host, override_load, override_hosts, loopback_of, loopback_target_host,
  only_host, ad_hoc_hosts, with_defaults, override_config, apply_cli_overrides,
}
use daegsa.Safety.HostPolicy.{is_host_allowed}
use daegsa.Safety.Preflight.{
  SafetyFlags, TargetEndpoint, allowed_list, unique_after, PreflightResult, Network, target_of,
  targets, check_targets, figures, check_figures, resolve_hosts, result_of, check,
}
use daegsa.Safety.Preflight.Permitted.{IsPermitted, targets_sound}

module _ {floats : Floats} (lib : ConfigLibrary floats) where
  -- The text is the URL of a loopback host.
  abbrev ReachesLoopback : Text → Type 0
  ReachesLoopback url =
      (u : Url) × (lib.parse_url url ≡ some u) × (is_loopback_host lib.hosts u.hostname ≡ true)

  loopback_parts :
      (o : Option Url) {host : Text}
      → loopback_of lib o ≡ some host
      → (u : Url) × (o ≡ some u) × (is_loopback_host lib.hosts u.hostname ≡ true)
  loopback_parts none h = cc
  loopback_parts (some u) h = elim (Bool-cases (is_loopback_host lib.hosts u.hostname)) [
    | inl e ↦ (u, refl, e)
    | inr e ↦ cc (rw e at h)
  ]

  ad_hoc_cases :
      (flags : CliFlags floats) (url : Text) (hosts : Option (List Text))
      → has_no_host hosts ≡ true
      → (has_no_host (ad_hoc_hosts lib flags url hosts) ≡ true) ⊎ ReachesLoopback url
  unfolding ad_hoc_hosts loopback_target_host
  ad_hoc_cases flags url hosts bare =
      go (is_empty flags.config_file && not (is_some flags.allowed_hosts) && has_no_host hosts)
        (loopback_of lib (lib.parse_url url)) refl
    where
      go :
          (b : Bool) (o : Option Text)
          → loopback_of lib (lib.parse_url url) ≡ o
          → (has_no_host (if b then only_host lib o hosts else hosts) ≡ true) ⊎ ReachesLoopback url
      go false o e = inl bare
      go true none e = inl bare
      go true (some host) e = inr (loopback_parts (lib.parse_url url) e)

  bare_list :
      (hosts : Option (List Text)) {kept : Option (List Text)}
      → has_no_host hosts ≡ true
      → normalize_allowed_hosts lib.hosts hosts true ≡ ok kept
      → allowed_list kept ≡ []
  unfolding normalize_allowed_hosts
  bare_list none bare h = ap allowed_list (sym (ok-injective h))
  bare_list (some []) bare h = ap allowed_list (sym (ok-injective h))
  bare_list (some (x ∷ l)) bare h = cc

  single_target :
      (req : RequestConfig) {ts : List TargetEndpoint}
      → targets lib req none ≡ ok ts
      → (u : Url) × (t : TargetEndpoint) × (lib.parse_url req.url ≡ some u)
        × (ts ≡ t ∷ [])
        × (t.target_url ≡ u)
        × (t.host ≡ (if is_empty u.hostname then u.host else u.hostname))
  unfolding targets
  single_target req {ts} h = go (lib.parse_url req.url) refl h
    where
      go :
          (o : Option Url)
          → lib.parse_url req.url ≡ o
          → (target_of lib req.method req.response_body_limit o >>= λ t. ok (t ∷ [])) ≡ ok ts
          → (u : Url) × (t : TargetEndpoint) × (lib.parse_url req.url ≡ some u)
            × (ts ≡ t ∷ [])
            × (t.target_url ≡ u)
            × (t.host ≡ (if is_empty u.hostname then u.host else u.hostname))
      go none e h = cc
      go (some u) e h = (u, _, e, sym (ok-injective h), refl, refl)

  abbrev host_of : Url → Text
  host_of u = if is_empty u.hostname then u.host else u.hostname

  -- What the policy says of the host of a URL.
  abbrev IsReachable : SafetyConfig → Url → Type 0
  IsReachable safety u =
      (is_empty (host_of u) ≡ true)
      ⊎ (is_host_allowed lib.hosts (host_of u) (allowed_list safety.allowed_hosts) ≡ true)

  one_target :
      (req : RequestConfig) (safety : SafetyConfig) (flags : SafetyFlags)
      (o : Option ScenarioConfig) (ts : List TargetEndpoint) (ips : List lib.hosts.Ip)
      {r : PreflightResult lib}
      → targets lib req none ≡ ok ts
      → All (IsPermitted lib safety flags) ts
      → result_of lib o ts ips ≡ ok r
      → (lib.parse_url req.url ≡ some r.target_url) × IsReachable safety r.target_url
  one_target req safety flags o ts ips {r} h permitted given =
      let (u, t, parsed, shape, same_url, same_host) = single_target req h in
      go u t parsed same_url same_host (subst (All (IsPermitted lib safety flags)) shape permitted)
        (subst (λ l. result_of lib o l ips ≡ ok r) shape given)
    where
      go :
          (u : Url) (t : TargetEndpoint)
          → lib.parse_url req.url ≡ some u
          → t.target_url ≡ u
          → t.host ≡ host_of u
          → All (IsPermitted lib safety flags) (t ∷ [])
          → result_of lib o (t ∷ []) ips ≡ ok r
          → (lib.parse_url req.url ≡ some r.target_url) × IsReachable safety r.target_url
      go u t parsed same_url same_host permitted given =
          let target : u ≡ r.target_url =
            sym same_url ∙ ap (λ (q : PreflightResult lib). q.target_url) (ok-injective given) in
          let reachable : IsReachable safety u =
            subst
              (λ host.
                (is_empty host ≡ true)
                ⊎ (is_host_allowed lib.hosts host (allowed_list safety.allowed_hosts) ≡ true))
              same_host permitted.0.host in
          subst (λ v. (lib.parse_url req.url ≡ some v) × IsReachable safety v) target
            (parsed, reachable)

  checked_target :
      (net : Network lib) (cfg : Config floats) (flags : SafetyFlags) {r : PreflightResult lib}
      → cfg.scenario ≡ none
      → check lib net cfg flags ≡ ok r
      → (lib.parse_url cfg.request.url ≡ some r.target_url) × IsReachable cfg.safety r.target_url
  unfolding check
  checked_target net cfg flags alone h =
      let (ts, ht, h1) = ok_parts (targets lib cfg.request cfg.scenario) h in
      let (_, hp, h2) = ok_parts (check_targets lib cfg.safety flags ts) h1 in
      let (f, hf, h3) = ok_parts (figures lib cfg.load) h2 in
      let (_, hc, h4) = ok_parts (check_figures lib cfg.load f) h3 in
      let (ips, hr, h5) =
        ok_parts (resolve_hosts lib net flags (net.in_map_order (unique_after [] ts))) h4 in
      one_target cfg.request cfg.safety flags cfg.scenario ts ips
        (ap (targets lib cfg.request) (sym alone) ∙ ht) (targets_sound lib cfg.safety flags ts hp)
        h5

  -- The configuration after the flags has no allowlist, or its request goes to a loopback host.
  overridden_cases :
      (cfg : Config floats) (flags : CliFlags floats) {cfg' : Config floats}
      → flags.allowed_hosts ≡ none
      → has_no_host cfg.safety.allowed_hosts ≡ true
      → apply_cli_overrides lib cfg (some flags) ≡ ok cfg'
      → (allowed_list cfg'.safety.allowed_hosts ≡ []) ⊎ ReachesLoopback cfg'.request.url
  unfolding apply_cli_overrides override_config override_hosts with_defaults
  overridden_cases cfg flags {cfg'} unset bare h =
      let (o, ho, h1) = ok_parts (override_config lib flags cfg) h in
      let (load, _, h2) = ok_parts (override_load lib flags cfg.load) ho in
      let (hosts, hh, h3) =
        ok_parts (override_hosts lib flags.allowed_hosts cfg.safety.allowed_hosts) h2 in
      let kept = validate_config-Keeps lib (with_defaults lib flags o) h1 in
      let same_hosts : hosts ≡ cfg.safety.allowed_hosts =
        ok-injective (sym hh ∙ ap (λ f. override_hosts lib f cfg.safety.allowed_hosts) unset) in
      let o_hosts : o.safety.allowed_hosts ≡ cfg.safety.allowed_hosts =
        ap (λ (q : Config floats). q.safety.allowed_hosts) (sym (ok-injective h3)) ∙ same_hosts in
      elim (ad_hoc_cases flags o.request.url o.safety.allowed_hosts
        (ap has_no_host o_hosts ∙ bare)) [
          | inl none_allowed ↦ inl (bare_list _ none_allowed kept.allowed)
          | inr reached ↦ inr (subst ReachesLoopback (sym kept.url) reached)
        ]

  -- When neither the flags nor the configuration give an allowlist, and the configuration that
  -- results from them has no scenario, then what the command goes on to send its requests to, if the
  -- preflight lets it, is a URL without a host or one of a loopback host.
  pub check-is_loopback_host :
      (net : Network lib) (cfg : Config floats) (flags : CliFlags floats)
      (safety_flags : SafetyFlags) {cfg' : Config floats} {r : PreflightResult lib}
      → flags.allowed_hosts ≡ none
      → has_no_host cfg.safety.allowed_hosts ≡ true
      → apply_cli_overrides lib cfg (some flags) ≡ ok cfg'
      → cfg'.scenario ≡ none
      → check lib net cfg' safety_flags ≡ ok r
      → ((is_empty r.target_url.hostname ≡ true) × (is_empty r.target_url.host ≡ true))
        ⊎ (is_loopback_host lib.hosts r.target_url.hostname ≡ true)
  unfolding is_host_allowed
  check-is_loopback_host net cfg flags safety_flags {cfg'} {r} unset bare applied alone checked =
      let (parsed, reachable) = checked_target net cfg' safety_flags alone checked in
      elim (overridden_cases cfg flags unset bare applied) [
        | inl empty ↦
            inl (no_host r.target_url (elim reachable [ inl e ↦ e | inr e ↦ cc (rw empty at e) ]))
        | inr (u, same, loopback) ↦ inr (
            subst (λ v. is_loopback_host lib.hosts v.hostname ≡ true) (some_inj (sym same ∙ parsed))
              loopback)
      ]
    where
      no_host :
          (u : Url)
          → is_empty (host_of u) ≡ true
          → (is_empty u.hostname ≡ true) × (is_empty u.host ≡ true)
      no_host u h = elim (Bool-cases (is_empty u.hostname)) [
        | inl e ↦ (e, rw e at h)
        | inr e ↦ cc (e, rw e at h)
      ]
