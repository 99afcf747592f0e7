-- ===== src/Config/Validate/Scenario/Normal.antt =====
-- validateScenarioConfig of internal/config/validate.go: the scenarios that are valid as they stand.
use daegsa.Prelude.{
  ℕ, suc, false, List, [], ◌∷◌, ◌≡◌, ◌≢◌, refl, sym, ap, subst, is_empty, any, arith, ◌≤◌, ltb,
  length, All, map, if◌then◌else◌,
}
use daegsa.Prelude.Float.{Floats}
use daegsa.Prelude.Text.{Text, text_eq}
use daegsa.Prelude.Strings.Trim.{trim_space_again}
use daegsa.Prelude.Distinct.{AreDistinct, AreNew, any_absent, absent_any, AreNew-AreDistinct}
use daegsa.Prelude.Result.{Result, ok, err, ◌>>=◌, ok_parts, ok-injective, guard_parts, guard_of}
use daegsa.Config.Types.{ScenarioConfig, StepConfig, max_scenario_steps}
use daegsa.Config.Validate.{
  ConfigError, step_name, duplicate_step, scenario_name, no_steps, too_many_steps, ConfigLibrary,
}
use daegsa.Config.Validate.Scenario.{
  validate_step_config, name_step, check_steps, validate_scenario_config,
}
use daegsa.Config.Validate.Scenario.Step.{trimmed, IsStep, IsStep-again}

module _ {floats : Floats} (lib : ConfigLibrary floats) where
  abbrev pub step_names : List StepConfig → List Text
  step_names l = map (λ (s : StepConfig). s.name) l

  -- A scenario with a name and from one to 50 steps, each one valid, no two with the same name.
  pub record IsScenario (scenario : ScenarioConfig) : Type 0 where
    pub named : is_empty (trimmed lib scenario.name) ≡ false
    pub some_step : is_empty scenario.steps ≡ false
    pub not_too_many : length scenario.steps ≤ max_scenario_steps
    pub good : All (IsStep lib) scenario.steps
    pub distinct : AreDistinct (step_names scenario.steps)

  name_step_parts :
      {A : Type 0} (name : Text) (r : Result ConfigError A) {a : A}
      → name_step lib name r ≡ ok a
      → r ≡ ok a
  name_step_parts name (ok b) h = h
  name_step_parts name (err e) h = cc

  cons_again :
      (seen : List Text) (s : StepConfig) (m : List StepConfig)
      → IsStep lib s
      → All (λ u. u ≢ s.name) seen
      → validate_step_config lib s ≡ ok s
      → check_steps lib (s.name ∷ seen) m ≡ ok m
      → check_steps lib seen (s ∷ m) ≡ ok (s ∷ m)
  unfolding check_steps
  cons_again seen s m good new again rest =
      subst
        (λ n.
          (if is_empty n
            then err step_name
            else if any (λ u. text_eq u n) seen
            then err duplicate_step
            else (name_step lib n (validate_step_config lib (record s { name = n })) >>= λ s'.
                check_steps lib (n ∷ seen) m >>= λ m'. ok (s' ∷ m')))
          ≡ ok (s ∷ m))
        (sym good.trimmed_name)
        (guard_of _ step_name good.named
          (guard_of _ duplicate_step (absent_any s.name seen new) (rw (again, rest) refl)))

  -- What the loop has of the steps that it stores.
  record Stored (seen : List Text) (count : ℕ) (m : List StepConfig) : Type 0 where
    good : All (IsStep lib) m
    new : AreNew seen (step_names m)
    size : length m ≡ count
    again : check_steps lib seen m ≡ ok m

  cons-Stored :
      (seen : List Text) (name : Text) (s : StepConfig) (count : ℕ) (m : List StepConfig)
      → s.name ≡ name
      → All (λ u. u ≢ name) seen
      → IsStep lib s
      → validate_step_config lib s ≡ ok s
      → Stored (name ∷ seen) count m
      → Stored seen (suc count) (s ∷ m)
  cons-Stored seen name s count m same fresh good again rest =
      let fresh' : All (λ u. u ≢ s.name) seen = rw same fresh in
      let rest' : Stored (s.name ∷ seen) count m = rw same rest in
      record {
        good = (good, rest.good);
        new = (fresh', rest'.new);
        size = ap suc rest.size;
        again = cons_again seen s m good fresh' again rest'.again;
      }

  steps-Stored :
      (seen : List Text) (l : List StepConfig) {l' : List StepConfig}
      → check_steps lib seen l ≡ ok l'
      → Stored seen (length l) l'
  unfolding check_steps
  steps-Stored seen [] h =
      subst (Stored seen 0) (ok-injective h)
        (record { good = tt; new = tt; size = refl; again = refl })
  steps-Stored seen (step ∷ l) {l'} h =
      let name : Text = trimmed lib step.name in
      let (named, h1) = guard_parts (is_empty name) step_name h in
      let (fresh, h2) = guard_parts (any (λ n. text_eq n name) seen) duplicate_step h1 in
      let (s, hs, h3) =
        ok_parts (name_step lib name (validate_step_config lib (record step { name = name }))) h2 in
      let (m, hm, h4) = ok_parts (check_steps lib (name ∷ seen) l) h3 in
      let (good, same, again) =
        IsStep-again lib (record step { name = name }) named
          (trim_space_again lib.hosts.unicode step.name) (name_step_parts name _ hs) in
      subst (Stored seen (suc (length l))) (ok-injective h4) (
        cons-Stored seen name s (length l) m same (any_absent name seen fresh) good again
          (steps-Stored (name ∷ seen) l hm))

  IsScenario-result :
      (scenario : ScenarioConfig) (m : List StepConfig)
      → is_empty (trimmed lib scenario.name) ≡ false
      → is_empty scenario.steps ≡ false
      → ltb max_scenario_steps (length scenario.steps) ≡ false
      → Stored [] (length scenario.steps) m
      → IsScenario (record scenario { steps = m })
        × (validate_scenario_config lib (record scenario { steps = m })
            ≡ ok (record scenario { steps = m }))
  unfolding validate_scenario_config
  IsScenario-result scenario m named present many h =
      let full : is_empty m ≡ false = same_empty scenario.steps m h.size present in
      let few : ltb max_scenario_steps (length m) ≡ false = rw h.size many in
      (
        record {
          named = named;
          some_step = full;
          not_too_many = ground arith;
          good = h.good;
          distinct = AreNew-AreDistinct (step_names m) h.new;
        },
        rw (named, full, few, h.again) refl,
      )
    where
      same_empty :
          (l m : List StepConfig) → length m ≡ length l → is_empty l ≡ false → is_empty m ≡ false
      same_empty [] m e h = cc
      same_empty (x ∷ l) [] e h = absurd (omega (arith, e))
      same_empty (x ∷ l) (y ∷ m) e h = refl

  -- A scenario that is accepted has become a valid one, with its defaults filled in, and validated
  -- again, nothing in it changes.
  pub validate_scenario_config-IsScenario :
      (scenario : ScenarioConfig) {scenario' : ScenarioConfig}
      → validate_scenario_config lib scenario ≡ ok scenario'
      → IsScenario scenario' × (validate_scenario_config lib scenario' ≡ ok scenario')
  unfolding validate_scenario_config
  validate_scenario_config-IsScenario scenario {scenario'} h =
      let (named, h1) = guard_parts (is_empty (trimmed lib scenario.name)) scenario_name h in
      let (present, h2) = guard_parts (is_empty scenario.steps) no_steps h1 in
      let (many, h3) =
        guard_parts (ltb max_scenario_steps (length scenario.steps)) too_many_steps h2 in
      let (l, hl, same) = ok_parts (check_steps lib [] scenario.steps) h3 in
      subst (λ q. IsScenario q × (validate_scenario_config lib q ≡ ok q)) (ok-injective same)
        (IsScenario-result scenario l named present many (steps-Stored [] scenario.steps hl))
