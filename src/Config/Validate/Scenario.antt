-- ===== src/Config/Validate/Scenario.antt =====
-- validateScenarioConfig and validateStepConfig of internal/config/validate.go.
pub mod Step
pub mod Normal
use daegsa.Prelude.{
  ℕ, Bool, true, false, List, [], ◌∷◌, Option, none, some, ◌||◌, ◌&&◌, not, any, is_empty, ltb,
  length, if◌then◌else◌,
}
use daegsa.Prelude.Int.{ℤ, pos, ltb_ℤ}
use daegsa.Prelude.Float.{Floats}
use daegsa.Prelude.Text.{Text, codes, text_eq, has_prefix}
use daegsa.Prelude.Strings.{to_lower, trim_space}
use daegsa.Prelude.Result.{Result, ok, err, ◌>>=◌}
use daegsa.Config.Types.{
  ScenarioConfig, StepConfig, ExtractRuleConfig, max_scenario_steps, on_failure_policies,
  extract_sources, extract_source_regex,
}
use daegsa.Config.Validate.{
  ConfigError, empty_url, invalid_url, negative_think_time, scenario_name, no_steps, too_many_steps,
  step_name, duplicate_step, invalid_on_failure, invalid_extract, in_step, ConfigLibrary, one_of,
  check_timeout, check_statuses, check_redirects, check_method, normal_method, check_body_limit,
}

module _ {floats : Floats} (lib : ConfigLibrary floats) where
  abbrev trim : Text → Text
  trim s = trim_space lib.hosts.unicode s

  abbrev lower_trim : Text → Text
  lower_trim s = to_lower lib.hosts.unicode (trim s)

  unfoldable pub check_on_failure : Text → Result ConfigError Text
  check_on_failure s =
      let policy = if is_empty (lower_trim s) then codes "stop" else lower_trim s in
      if one_of policy on_failure_policies then ok policy else err invalid_on_failure

  abbrev rule_is_valid : Text → ExtractRuleConfig → Bool
  rule_is_valid name rule =
      let source = lower_trim rule.source in
      let expression = trim rule.expression in
      not (is_empty (trim name))
      && one_of source extract_sources
      && not (is_empty expression)
      && not (text_eq source extract_source_regex && not (lib.regex_compiles expression))

  -- The loop over the rules ends at the first one that is not valid.
  unfoldable pub check_extract : List (Text × ExtractRuleConfig) → Result ConfigError (Unit {0})
  check_extract [] = ok tt
  check_extract ((name, rule) ∷ l) =
      let rest = check_extract l in if rule_is_valid name rule then rest else err invalid_extract

  abbrev or_get : Text → Text
  or_get method = if is_empty method then codes "GET" else method

  unfoldable pub check_step_options : StepConfig → Result ConfigError StepConfig
  check_step_options step = check_method (or_get (normal_method lib step.method)) >>= λ method.
      check_timeout step.timeout >>= λ timeout.
      check_statuses step.expected_statuses >>= λ statuses.
      check_body_limit lib step.response_body_limit >>= λ limit.
      check_redirects step.redirects >>= λ redirects.
      if ltb_ℤ step.think_time (pos 0)
      then err negative_think_time
      else (check_on_failure step.on_failure >>= λ policy. check_extract step.extract >>= λ _.
          ok (record step {
            method = method;
            timeout = timeout;
            expected_statuses = statuses;
            response_body_limit = limit;
            redirects = redirects;
            on_failure = policy;
          }))

  unfoldable pub validate_step_config : StepConfig → Result ConfigError StepConfig
  validate_step_config step =
      let trimmed = trim step.url in
      if is_empty trimmed
      then err empty_url
      else if not (has_prefix trimmed (codes "http://"))
          && not (has_prefix trimmed (codes "https://"))
      then err invalid_url
      else check_step_options step

  abbrev name_step {ℓ} : {A : Type ℓ} → Text → Result ConfigError A → Result ConfigError A
  name_step name (ok a) = ok a
  name_step name (err e) = err (in_step name e)

  -- The loop over the steps, with the names of those before.
  unfoldable pub check_steps : List Text → List StepConfig → Result ConfigError (List StepConfig)
  check_steps seen [] = ok []
  check_steps seen (step ∷ l) =
      let name = trim step.name in
      let rest = check_steps (name ∷ seen) l in
      if is_empty name
      then err step_name
      else if any (λ n. text_eq n name) seen
      then err duplicate_step
      else (name_step name (validate_step_config (record step { name = name })) >>= λ step'.
          rest >>= λ l'. ok (step' ∷ l'))

  unfoldable pub validate_scenario_config : ScenarioConfig → Result ConfigError ScenarioConfig
  validate_scenario_config scenario =
      if is_empty (trim scenario.name)
      then err scenario_name
      else if is_empty scenario.steps
      then err no_steps
      else if ltb max_scenario_steps (length scenario.steps)
      then err too_many_steps
      else (check_steps [] scenario.steps >>= λ steps. ok (record scenario { steps = steps }))
