-- ===== src/Config/Validate/Document/Parts.antt =====
-- ValidateConfig of internal/config/validate.go: the configurations that it gives out.
use daegsa.Prelude.{
  Bool, List, true, false, Option, none, some, ◌≡◌, ◌⊎◌, refl, sym, ◌∙◌, ap, subst, arith, ◌&&◌,
  not, is_empty,
}
use daegsa.Prelude.Int.{ℤ, eqb_ℤ, eq_of_parts}
use daegsa.Prelude.Float.{Floats}
use daegsa.Prelude.Text.{Text, text_eq, text_eq_sound, is_some}
use daegsa.Prelude.Strings.{trim_space}
use daegsa.Prelude.Result.{ok, ok_parts, ok-injective, guard_parts, Result, err, ◌>>=◌}
use daegsa.Config.AllowedHost.{HostError, normalize_allowed_hosts}
use daegsa.Config.Types.{
  SafetyConfig, Config, RequestConfig, ScenarioConfig, legacy_schema_version,
  expected_schema_version, model_closed,
}
use daegsa.Config.Validate.{
  unsupported_schema_version, segments_required, empty_name, request_and_scenario, no_target,
  scenario_not_closed, ConfigLibrary,
}
use daegsa.Config.Validate.Request.Normal.{
  IsRequest, validate_request_config-IsRequest, validate_request_config-url,
}
use daegsa.Config.Validate.Load.{validate_load_config}
use daegsa.Config.Validate.Load.Normal.{validate_load_config_again, validate_load_config-compiles}
use daegsa.Config.Validate.Scenario.{validate_scenario_config}
use daegsa.Config.Validate.Scenario.Normal.{IsScenario, validate_scenario_config-IsScenario}
use daegsa.Config.Validate.Auth.{validate_auth}
use daegsa.Config.Validate.Document.{
  validate_thresholds, check_request, check_scenario, check_safety, hosts_result, has_request,
  check_parts, validate_config,
}

module _ {floats : Floats} (lib : ConfigLibrary floats) where
  abbrev pub IsOptionalScenario : Text → Option ScenarioConfig → Type 0
  IsOptionalScenario model none = Unit
  IsOptionalScenario model (some s) = IsScenario lib s × (model ≡ model_closed)

  -- A valid configuration has a known version, a name, and either a request or a scenario, which is
  -- valid; a scenario has a closed load; and the load is accepted as it stands.
  pub record IsConfig (cfg : Config floats) : Type 0 where
    pub version :
        (cfg.schema_version ≡ legacy_schema_version)
        ⊎ (cfg.schema_version ≡ expected_schema_version)
    pub named : is_empty (trim_space lib.hosts.unicode cfg.name) ≡ false
    pub one_target : has_request lib cfg ≡ not (is_some cfg.scenario)
    pub request : has_request lib cfg ≡ true → IsRequest lib cfg.request
    pub scenario : IsOptionalScenario cfg.load.model cfg.scenario
    pub load :
        validate_load_config lib.hosts.unicode floats cfg.load cfg.schema_version ≡ ok cfg.load

  known_version :
      (v : ℤ)
      → (not (eqb_ℤ v legacy_schema_version) && not (eqb_ℤ v expected_schema_version)) ≡ false
      → (v ≡ legacy_schema_version) ⊎ (v ≡ expected_schema_version)
  known_version v h =
      ground (arith, eq_of_parts v legacy_schema_version, eq_of_parts v expected_schema_version)

  one_of_two : (a b : Bool) → (a && b) ≡ false → (not a && not b) ≡ false → a ≡ not b
  one_of_two a b p q = ground arith

  request_kept :
      (b : Bool) (req : RequestConfig) {req' : RequestConfig}
      → check_request lib b req ≡ ok req'
      → (req'.url ≡ req.url) × (b ≡ true → IsRequest lib req')
  unfolding check_request
  request_kept true req h = (
    validate_request_config-url lib req h,
    λ _. let (good, _) = validate_request_config-IsRequest lib req h in good,
  )
  request_kept false req {req'} h = (ap (λ q. q.url) (sym (ok-injective h)), λ never. cc)

  scenario_kept :
      (model : Text) (o : Option ScenarioConfig) {o' : Option ScenarioConfig}
      → check_scenario lib model o ≡ ok o'
      → IsOptionalScenario model o' × (is_some o' ≡ is_some o)
  unfolding check_scenario
  scenario_kept model none h =
      subst (λ q. IsOptionalScenario model q × (is_some q ≡ false)) (ok-injective h) (tt, refl)
  scenario_kept model (some s) h =
      let (s', valid, h1) = ok_parts (validate_scenario_config lib s) h in
      let (closed, h2) = guard_parts (not (text_eq model model_closed)) scenario_not_closed h1 in
      let (good, _) = validate_scenario_config-IsScenario lib s valid in
      subst (λ q. IsOptionalScenario model q × (is_some q ≡ true)) (ok-injective h2)
        ((good, text_eq_sound model model_closed (of_not _ closed)), refl)
    where
      of_not : (b : Bool) → not b ≡ false → b ≡ true
      of_not b h = ground arith

  parts_IsConfig :
      (cfg : Config floats) {cfg' : Config floats}
      → (cfg.schema_version ≡ legacy_schema_version)
        ⊎ (cfg.schema_version ≡ expected_schema_version)
      → is_empty (trim_space lib.hosts.unicode cfg.name) ≡ false
      → has_request lib cfg ≡ not (is_some cfg.scenario)
      → check_parts lib cfg ≡ ok cfg'
      → IsConfig cfg'
  unfolding check_parts
  parts_IsConfig cfg version named one h =
      let (req, hr, h1) = ok_parts (check_request lib (has_request lib cfg) cfg.request) h in
      let (o, hs, h2) = ok_parts (check_scenario lib cfg.load.model cfg.scenario) h1 in
      let (load, hl, h3) =
        ok_parts (validate_load_config lib.hosts.unicode floats cfg.load cfg.schema_version) h2 in
      let (_, ht, h4) = ok_parts (validate_thresholds lib cfg.thresholds) h3 in
      let (auth, ha, h5) = ok_parts (validate_auth lib cfg.auth) h4 in
      let (safety, hf, h6) = ok_parts (check_safety lib cfg.safety) h5 in
      let (same_url, good_request) = request_kept (has_request lib cfg) cfg.request hr in
      let (good_scenario, same_scenario) = scenario_kept cfg.load.model cfg.scenario hs in
      let (same_model, _) =
        validate_load_config-compiles lib.hosts.unicode floats cfg.load cfg.schema_version hl in
      let present : has_request lib (record cfg { request = req }) ≡ has_request lib cfg =
        ap (λ u. not (is_empty (trim_space lib.hosts.unicode u))) same_url in
      subst IsConfig (ok-injective h6) (record {
        version = version;
        named = named;
        one_target = present ∙ (one ∙ ap not (sym same_scenario));
        request = λ q. good_request (sym present ∙ q);
        scenario = subst (λ m. IsOptionalScenario m o) (sym same_model) good_scenario;
        load = validate_load_config_again lib.hosts.unicode floats cfg.load cfg.schema_version hl;
      })

  -- A configuration that is accepted has become a valid one: its version is known, it has a name and
  -- exactly one of a request and a scenario, the request or the scenario is valid as it stands, a
  -- scenario has a closed load, and the load is accepted again without a change.
  pub validate_config-IsConfig :
      (cfg : Config floats) {cfg' : Config floats}
      → validate_config lib cfg ≡ ok cfg'
      → IsConfig cfg'
  unfolding validate_config
  validate_config-IsConfig cfg h =
      let (version, h1) = guard_parts _ unsupported_schema_version h in
      let (_, h2) = guard_parts _ segments_required h1 in
      let (named, h3) = guard_parts _ empty_name h2 in
      let (both, h4) = guard_parts _ request_and_scenario h3 in
      let (neither, h5) = guard_parts _ no_target h4 in
      parts_IsConfig cfg (known_version cfg.schema_version version) named
        (one_of_two _ _ both neither) h5

  hosts_parts :
      (s : SafetyConfig) {s' : SafetyConfig}
      → check_safety lib s ≡ ok s'
      → normalize_allowed_hosts lib.hosts s.allowed_hosts true ≡ ok s'.allowed_hosts
  unfolding check_safety
  hosts_parts s {s'} h = go (normalize_allowed_hosts lib.hosts s.allowed_hosts true) h
    where
      go :
          (r : Result HostError (Option (List Text)))
          → (hosts_result lib r >>= λ hosts. ok (record s { allowed_hosts = hosts })) ≡ ok s'
          → r ≡ ok s'.allowed_hosts
      go (ok hosts) h = ap (λ (q : SafetyConfig). ok q.allowed_hosts) (ok-injective h)
      go (err e) h = cc

  -- What the validation keeps of the target, and the allowlist that it stores.
  pub record Keeps (cfg cfg' : Config floats) : Type 0 where
    pub url : cfg'.request.url ≡ cfg.request.url
    pub allowed :
        normalize_allowed_hosts lib.hosts cfg.safety.allowed_hosts true
        ≡ ok cfg'.safety.allowed_hosts

  check_parts-Keeps :
      (cfg : Config floats) {cfg' : Config floats} → check_parts lib cfg ≡ ok cfg' → Keeps cfg cfg'
  unfolding check_parts
  check_parts-Keeps cfg h =
      let (req, hr, h1) = ok_parts (check_request lib (has_request lib cfg) cfg.request) h in
      let (o, hs, h2) = ok_parts (check_scenario lib cfg.load.model cfg.scenario) h1 in
      let (load, hl, h3) =
        ok_parts (validate_load_config lib.hosts.unicode floats cfg.load cfg.schema_version) h2 in
      let (_, ht, h4) = ok_parts (validate_thresholds lib cfg.thresholds) h3 in
      let (auth, ha, h5) = ok_parts (validate_auth lib cfg.auth) h4 in
      let (safety, hf, h6) = ok_parts (check_safety lib cfg.safety) h5 in
      let (same_url, _) = request_kept (has_request lib cfg) cfg.request hr in
      subst (Keeps cfg) (ok-injective h6)
        (record { url = same_url; allowed = hosts_parts cfg.safety hf })

  pub validate_config-Keeps :
      (cfg : Config floats) {cfg' : Config floats}
      → validate_config lib cfg ≡ ok cfg'
      → Keeps cfg cfg'
  unfolding validate_config
  validate_config-Keeps cfg h =
      let (_, h1) = guard_parts _ unsupported_schema_version h in
      let (_, h2) = guard_parts _ segments_required h1 in
      let (_, h3) = guard_parts _ empty_name h2 in
      let (_, h4) = guard_parts _ request_and_scenario h3 in
      let (_, h5) = guard_parts _ no_target h4 in check_parts-Keeps cfg h5
