-- ===== src/Config/Validate/Scenario/Step.antt =====
-- validateStepConfig of internal/config/validate.go: the steps that are valid as they stand.
use daegsa.Prelude.{
  Bool, true, false, List, [], ◌∷◌, ◌≡◌, refl, ◌∙◌, ap, subst, is_empty, not, arith, All, ◌||◌,
  ◌&&◌, if◌then◌else◌,
}
use daegsa.Prelude.Int.{pos, ltb_ℤ, ◌≤ℤ◌}
use daegsa.Prelude.Float.{Floats}
use daegsa.Prelude.Text.{Text, codes, has_prefix}
use daegsa.Prelude.Strings.{trim_space, lower, is_space}
use daegsa.Prelude.Result.{ok, ok_parts, ok-injective, guard_parts, guard_of, test_parts}
use daegsa.Config.Types.{StepConfig, ExtractRuleConfig, on_failure_policies}
use daegsa.Config.Validate.{
  empty_url, invalid_url, negative_think_time, invalid_on_failure, invalid_extract, ConfigLibrary,
  one_of, methods, redirect_policies, check_timeout, check_statuses, check_redirects, check_method,
  normal_method, check_body_limit,
}
use daegsa.Config.Validate.Options.{
  IsTimeout, AreStatuses, IsBodyLimit, check_timeout-IsTimeout, check_statuses-AreStatuses,
  check_redirects_again, check_method-one_of, check_method_of, normal_method_of, method_full,
  check_body_limit-IsBodyLimit, one_of_all, one_of_full,
}
use daegsa.Config.Validate.Scenario.{
  lower_trim, check_on_failure, rule_is_valid, check_extract, or_get, check_step_options,
  validate_step_config,
}

module _ {floats : Floats} (lib : ConfigLibrary floats) where
  abbrev pub trimmed : Text → Text
  trimmed s = trim_space lib.hosts.unicode s

  abbrev is_http_text : Text → Bool
  is_http_text s = has_prefix s (codes "http://") || has_prefix s (codes "https://")

  -- A rule by itself: it has a name, a known source and an expression, which compiles where it is a
  -- regular one.
  abbrev pub IsRule : Text × ExtractRuleConfig → Type 0
  IsRule (name, rule) = rule_is_valid lib name rule ≡ true

  pub record IsStep (step : StepConfig) : Type 0 where
    pub named : is_empty step.name ≡ false
    pub trimmed_name : trimmed step.name ≡ step.name
    pub url : is_http_text (trimmed step.url) ≡ true
    pub method : one_of step.method methods ≡ true
    pub timeout : IsTimeout step.timeout
    pub statuses : AreStatuses step.expected_statuses
    pub limit : IsBodyLimit lib step.response_body_limit
    pub redirects : one_of step.redirects redirect_policies ≡ true
    pub think_time : pos 0 ≤ℤ step.think_time
    pub on_failure : one_of step.on_failure on_failure_policies ≡ true
    pub extract : All IsRule step.extract

  on_failure_again :
      (s : Text) {s' : Text}
      → check_on_failure lib s ≡ ok s'
      → (one_of s' on_failure_policies ≡ true) × (check_on_failure lib s' ≡ ok s')
  unfolding check_on_failure is_space lower
  on_failure_again s h =
      let policy : Text = if is_empty (lower_trim lib s) then codes "stop" else lower_trim lib s in
      let (known, h1) = test_parts (one_of policy on_failure_policies) invalid_on_failure h in
      subst (λ u. (one_of u on_failure_policies ≡ true) × (check_on_failure lib u ≡ ok u))
        (ok-injective h1) (known, fixed policy known)
    where
      fixed : (p : Text) → one_of p on_failure_policies ≡ true → check_on_failure lib p ≡ ok p
      fixed p h =
          rw
            (
              one_of_all (λ t. lower_trim lib t ≡ t) on_failure_policies (refl, (refl, (refl, tt)))
                  p h,
              one_of_full p on_failure_policies (refl, (refl, (refl, tt))) h,
              h,
            )
            refl

  extract_sound : (l : List (Text × ExtractRuleConfig)) → check_extract lib l ≡ ok tt → All IsRule l
  unfolding check_extract
  extract_sound [] h = tt
  extract_sound ((name, rule) ∷ l) h =
      let (good, rest) = test_parts (rule_is_valid lib name rule) invalid_extract h in
      (good, extract_sound l rest)

  or_get_of : (m : Text) → one_of m methods ≡ true → or_get lib (normal_method lib m) ≡ m
  or_get_of m h = rw (normal_method_of lib m h, method_full lib m h) refl

  fixed :
      (q : StepConfig)
      → one_of q.method methods ≡ true
      → check_timeout q.timeout ≡ ok q.timeout
      → check_statuses q.expected_statuses ≡ ok q.expected_statuses
      → check_body_limit lib q.response_body_limit ≡ ok q.response_body_limit
      → check_redirects q.redirects ≡ ok q.redirects
      → ltb_ℤ q.think_time (pos 0) ≡ false
      → check_on_failure lib q.on_failure ≡ ok q.on_failure
      → check_extract lib q.extract ≡ ok tt
      → check_step_options lib q ≡ ok q
  unfolding check_step_options
  fixed q known t l b r think p x =
      rw (or_get_of q.method known, check_method_of q.method known, t, l, b, r, think, p, x) refl

  options_again :
      (step : StepConfig) {step' : StepConfig}
      → is_empty step.name ≡ false
      → trimmed step.name ≡ step.name
      → is_http_text (trimmed step.url) ≡ true
      → check_step_options lib step ≡ ok step'
      → IsStep step'
        × (step'.name ≡ step.name)
        × (step'.url ≡ step.url)
        × (check_step_options lib step' ≡ ok step')
  unfolding check_step_options
  options_again step {step'} named trim http h =
      let (m, hm, h1) = ok_parts (check_method (or_get lib (normal_method lib step.method))) h in
      let (t, ht, h2) = ok_parts (check_timeout step.timeout) h1 in
      let (l, hl, h3) = ok_parts (check_statuses step.expected_statuses) h2 in
      let (b, hb, h4) = ok_parts (check_body_limit lib step.response_body_limit) h3 in
      let (r, hr, h5) = ok_parts (check_redirects step.redirects) h4 in
      let (think, h6) = guard_parts (ltb_ℤ step.think_time (pos 0)) negative_think_time h5 in
      let (p, hp, h7) = ok_parts (check_on_failure lib step.on_failure) h6 in
      let (_, hx, h8) = ok_parts (check_extract lib step.extract) h7 in
      let (_, known) = check_method-one_of (or_get lib (normal_method lib step.method)) hm in
      let (good_t, t_again) = check_timeout-IsTimeout step.timeout ht in
      let (good_l, l_again) = check_statuses-AreStatuses step.expected_statuses hl in
      let (good_b, b_again) = check_body_limit-IsBodyLimit lib step.response_body_limit hb in
      let (good_r, r_again) = check_redirects_again step.redirects hr in
      let (good_p, p_again) = on_failure_again step.on_failure hp in
      subst
        (λ q.
          IsStep q × (q.name ≡ step.name) × (q.url ≡ step.url) × (check_step_options lib q ≡ ok q))
        (ok-injective h8)
        (
          record {
            named = named;
            trimmed_name = trim;
            url = http;
            method = known;
            timeout = good_t;
            statuses = good_l;
            limit = good_b;
            redirects = good_r;
            think_time = ground arith;
            on_failure = good_p;
            extract = extract_sound step.extract hx;
          },
          refl,
          refl,
          fixed _ known t_again l_again b_again r_again think p_again hx,
        )

  neither : (a b : Bool) → (not a && not b) ≡ false → (a || b) ≡ true
  neither a b h = ground arith

  either : (a b : Bool) → (a || b) ≡ true → (not a && not b) ≡ false
  either a b h = ground arith

  pub IsStep-again :
      (step : StepConfig) {step' : StepConfig}
      → is_empty step.name ≡ false
      → trimmed step.name ≡ step.name
      → validate_step_config lib step ≡ ok step'
      → IsStep step' × (step'.name ≡ step.name) × (validate_step_config lib step' ≡ ok step')
  unfolding validate_step_config
  IsStep-again step {step'} named trim h =
      let url : Text = trimmed step.url in
      let (present, h1) = guard_parts (is_empty url) empty_url h in
      let (http, h2) =
        guard_parts
          (not (has_prefix url (codes "http://")) && not (has_prefix url (codes "https://")))
          invalid_url h1 in
      let (good, same, same_url, again) = options_again step named trim (neither _ _ http) h2 in
      (
        good,
        same,
        guard_of _ empty_url (ap (λ u. is_empty (trimmed u)) same_url ∙ present)
            (guard_of _ invalid_url (either _ _ good.url) again),
      )
