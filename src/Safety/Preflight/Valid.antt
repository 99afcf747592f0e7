-- ===== src/Safety/Preflight/Valid.antt =====
-- How Check of internal/safety/preflight.go refuses a configuration that ValidateConfig has accepted,
-- and the exit code of the refusal.
use daegsa.Prelude.{
  Bool, true, false, List, [], ◌∷◌, Option, none, some, ◌≡◌, inl, inr, refl, subst, is_empty, All,
  if◌then◌else◌,
}
use daegsa.Prelude.Int.{ℤ}
use daegsa.Prelude.Float.{Floats}
use daegsa.Prelude.Text.{Text}
use daegsa.Prelude.Result.{Result, ok, err, ok_parts, ok-injective, err_parts}
use daegsa.Profile.Types.{Compilation}
use daegsa.Cli.Exit.{ErrorChain, safety_refusal, determine_exit_code, exit_code_safety_refusal}
use daegsa.Config.Types.{Config, ScenarioConfig, StepConfig, RequestConfig}
use daegsa.Config.Validate.{ConfigError, ConfigLibrary}
use daegsa.Config.Validate.Load.Normal.{validate_load_config-compiles}
use daegsa.Config.Validate.Document.{validate_config}
use daegsa.Config.Validate.Document.Parts.{IsConfig, IsOptionalScenario, validate_config-IsConfig}
use daegsa.Safety.Preflight.{
  PreflightError, preflight_sentinels, SafetyFlags, TargetEndpoint, unique_after, Network,
  target_of, step_targets, targets, check_targets, figures, figures_of, check_figures,
  resolve_hosts, result_of, check,
}
use daegsa.Safety.Preflight.Refusals.{
  IsRefusal, targets-IsRefusal, checks-IsRefusal, figures-IsRefusal, hosts-IsRefusal,
}

module _ {floats : Floats} (lib : ConfigLibrary floats) where
  steps_present :
      (l : List StepConfig) {ts : List TargetEndpoint}
      → step_targets lib l ≡ ok ts
      → is_empty l ≡ false
      → is_empty ts ≡ false
  unfolding step_targets
  steps_present [] h present = cc
  steps_present (step ∷ l) h present =
      let (_, _, h1) =
        ok_parts (target_of lib step.method step.response_body_limit (lib.parse_url step.url)) h in
      let (_, _, h2) = ok_parts (step_targets lib l) h1 in
      subst (λ ts. is_empty ts ≡ false) (ok-injective h2) refl

  targets_present :
      (model : Text) (req : RequestConfig) (o : Option ScenarioConfig) {ts : List TargetEndpoint}
      → IsOptionalScenario lib model o
      → targets lib req o ≡ ok ts
      → is_empty ts ≡ false
  unfolding targets
  targets_present model req none valid h =
      let (_, _, h1) =
        ok_parts (target_of lib req.method req.response_body_limit (lib.parse_url req.url)) h in
      subst (λ ts. is_empty ts ≡ false) (ok-injective h1) refl
  targets_present model req (some s) valid h = steps_present s.steps h valid.0.some_step

  result_given :
      (o : Option ScenarioConfig) (ts : List TargetEndpoint) (ips : List lib.hosts.Ip)
      {e : PreflightError}
      → is_empty ts ≡ false
      → result_of lib o ts ips ≡ err e
      → IsRefusal e
  result_given o [] ips present h = cc
  result_given o (t ∷ ts) ips present h = cc

  -- The profile of an accepted load compiles again.
  figures_given :
      (cfg : Config floats) {e : PreflightError}
      → IsConfig lib cfg
      → figures lib cfg.load ≡ err e
      → IsRefusal e
  unfolding figures
  figures_given cfg {e} valid h =
      let (_, either) =
        validate_load_config-compiles lib.hosts.unicode floats cfg.load cfg.schema_version
          valid.load in
      elim either [
        | inl bare ↦ cc (bare, h)
        | inr (c, compiled) ↦ by_segments (is_empty cfg.load.segments) _ c _ compiled h
      ]
    where
      by_segments :
          (b : Bool) (r : Result ConfigError (Compilation floats)) (c : Compilation floats)
          (plain : ℤ × floats.Float)
          → r ≡ ok c
          → (if b then ok plain else figures_of lib r) ≡ err e
          → IsRefusal e
      by_segments true r c plain compiled h = cc
      by_segments false (ok d) c plain compiled h = cc
      by_segments false (err x) c plain compiled h = cc

  -- A configuration that was accepted is refused by the preflight with an error of the safety policy
  -- only: its targets are not none, its profile compiles.
  valid-IsRefusal :
      (net : Network lib) (cfg : Config floats) (flags : SafetyFlags) {e : PreflightError}
      → IsConfig lib cfg
      → check lib net cfg flags ≡ err e
      → IsRefusal e
  unfolding check
  valid-IsRefusal net cfg flags valid h =
      elim (err_parts (targets lib cfg.request cfg.scenario) h) [
        | inl q ↦ targets-IsRefusal lib cfg.request cfg.scenario q
        | inr (ts, ht, h1) ↦ elim (err_parts (check_targets lib cfg.safety flags ts) h1) [
          | inl q ↦ checks-IsRefusal lib cfg.safety flags ts q
          | inr (_, _, h2) ↦ elim (err_parts (figures lib cfg.load) h2) [
            | inl q ↦ figures_given cfg valid q
            | inr (f, _, h3) ↦ elim (err_parts (check_figures lib cfg.load f) h3) [
              | inl q ↦ figures-IsRefusal lib cfg.load f q
              | inr (_, _, h4) ↦
                  elim (err_parts
                    (resolve_hosts lib net flags (net.in_map_order (unique_after [] ts))) h4) [
                      | inl q ↦
                          hosts-IsRefusal lib net flags (net.in_map_order (unique_after [] ts)) q
                      | inr (ips, _, h5) ↦
                          result_given cfg.scenario ts ips
                            (targets_present cfg.load.model cfg.request cfg.scenario valid.scenario
                              ht)
                            h5
                    ]
            ]
          ]
        ]
      ]

  -- When a configuration was accepted and the preflight refuses it, then an error value that declares
  -- no exit code of its own and wraps the sentinels of the refusal makes the command exit with 4.
  pub determine_exit_code-check :
      (chain : ErrorChain) (failure : chain.Err) (cfg₀ : Config floats) {cfg : Config floats}
      (net : Network lib) (flags : SafetyFlags) {e : PreflightError}
      → validate_config lib cfg₀ ≡ ok cfg
      → check lib net cfg flags ≡ err e
      → chain.exit_coder failure ≡ none
      → All (λ s. chain.is_sentinel failure s ≡ true) (preflight_sentinels e)
      → determine_exit_code chain (some failure) ≡ exit_code_safety_refusal
  unfolding determine_exit_code
  determine_exit_code-check chain failure cfg₀ {cfg} net flags {e} valid refused undeclared wraps =
      let (l, refusal) =
        valid-IsRefusal net cfg flags (validate_config-IsConfig lib cfg₀ valid) refused in
      let wrapped : All (λ s. chain.is_sentinel failure s ≡ true) (safety_refusal ∷ l) =
        subst (All (λ s. chain.is_sentinel failure s ≡ true)) refusal wraps in
      rw (undeclared, wrapped.0) refl
