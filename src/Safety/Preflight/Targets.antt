-- ===== src/Safety/Preflight/Targets.antt =====
-- The targets that Check of internal/safety/preflight.go collects, said as conditions.
use daegsa.Prelude.{
  true, false, List, [], ◌∷◌, Option, none, some, ◌≡◌, ◌⊎◌, inl, inr, refl, sym, is_empty,
  Bool-cases, if◌then◌else◌, subst,
}
use daegsa.Prelude.Float.{Floats}
use daegsa.Prelude.Text.{Text}
use daegsa.Prelude.Result.{Result, ok, ok_parts, bind_of, ok-injective}
use daegsa.Config.Types.{RequestConfig, StepConfig, ScenarioConfig}
use daegsa.Config.Validate.{Url, ConfigLibrary}
use daegsa.Safety.Preflight.{PreflightError, TargetEndpoint, target_of, step_targets, targets}

module _ {floats : Floats} (lib : ConfigLibrary floats) where
  -- The target of a URL: its host is the host name, or all of the authority where that is empty.
  pub record IsTarget (method body_limit url : Text) (t : TargetEndpoint) : Type 0 where
    pub parsed : lib.parse_url url ≡ some t.target_url
    pub host :
        ((is_empty t.target_url.hostname ≡ true) × (t.host ≡ t.target_url.host))
        ⊎ ((is_empty t.target_url.hostname ≡ false) × (t.host ≡ t.target_url.hostname))
    pub same_method : t.method ≡ method
    pub same_limit : t.body_limit ≡ body_limit

  abbrev pub AreTargets : List StepConfig → List TargetEndpoint → Type 0
  AreTargets [] [] = Unit
  AreTargets [] (_ ∷ _) = ⊥
  AreTargets (_ ∷ _) [] = ⊥
  AreTargets (step ∷ l) (t ∷ ts) =
      IsTarget step.method step.response_body_limit step.url t × AreTargets l ts

  -- The targets are those of the steps of the scenario, or else the one of the request.
  abbrev pub Collects : RequestConfig → Option ScenarioConfig → List TargetEndpoint → Type 0
  Collects req (some scenario) ts = AreTargets scenario.steps ts
  Collects req none [] = ⊥
  Collects req none (t ∷ []) = IsTarget req.method req.response_body_limit req.url t
  Collects req none (_ ∷ _ ∷ _) = ⊥

  host_cases :
      (u : Url)
      → let host = if is_empty u.hostname then u.host else u.hostname in
        ((is_empty u.hostname ≡ true) × (host ≡ u.host))
        ⊎ ((is_empty u.hostname ≡ false) × (host ≡ u.hostname))
  host_cases u = elim (Bool-cases (is_empty u.hostname)) [
    | inl e ↦ inl (e, rw e refl)
    | inr e ↦ inr (e, rw e refl)
  ]

  target_of-IsTarget :
      (method body_limit url : Text) (o : Option Url) {t : TargetEndpoint}
      → lib.parse_url url ≡ o
      → target_of lib method body_limit o ≡ ok t
      → IsTarget method body_limit url t
  target_of-IsTarget method body_limit url none e h = cc
  target_of-IsTarget method body_limit url (some u) e h =
      subst (IsTarget method body_limit url) (ok-injective h)
        (record { parsed = e; host = host_cases u; same_method = refl; same_limit = refl })

  IsTarget-target_of :
      (method body_limit url : Text) (t : TargetEndpoint)
      → IsTarget method body_limit url t
      → target_of lib method body_limit (lib.parse_url url) ≡ ok t
  IsTarget-target_of method body_limit url t h = elim h.host [
    | inl (e, q) ↦ rw (h.parsed, e) (with_host t.target_url.host q)
    | inr (e, q) ↦ rw (h.parsed, e) (with_host t.target_url.hostname q)
  ]
    where
      with_host :
          (host : Text)
          → t.host ≡ host
          → ◌≡◌ {A = Result PreflightError TargetEndpoint}
              (ok (record {
                target_url = t.target_url;
                host = host;
                method = method;
                body_limit = body_limit;
              }))
              (ok t)
      with_host host q = λ i. ok (record {
        target_url = t.target_url;
        host = sym q i;
        method = sym h.same_method i;
        body_limit = sym h.same_limit i;
      })

  step_targets-AreTargets :
      (l : List StepConfig) (ts : List TargetEndpoint)
      → step_targets lib l ≡ ok ts
      → AreTargets l ts
  unfolding step_targets
  step_targets-AreTargets [] ts h = subst (AreTargets []) (ok-injective h) tt
  step_targets-AreTargets (step ∷ l) ts h =
      let (t, first, h1) =
        ok_parts (target_of lib step.method step.response_body_limit (lib.parse_url step.url)) h in
      let (rest, others, h2) = ok_parts (step_targets lib l) h1 in
      subst (AreTargets (step ∷ l)) (ok-injective h2) (
        target_of-IsTarget step.method step.response_body_limit step.url (lib.parse_url step.url)
            refl first,
        step_targets-AreTargets l rest others,
      )

  AreTargets-step_targets :
      (l : List StepConfig) (ts : List TargetEndpoint)
      → AreTargets l ts
      → step_targets lib l ≡ ok ts
  unfolding step_targets
  AreTargets-step_targets [] [] h = refl
  AreTargets-step_targets [] (_ ∷ _) h = elim h [ ]
  AreTargets-step_targets (_ ∷ _) [] h = elim h [ ]
  AreTargets-step_targets (step ∷ l) (t ∷ ts) (first, others) =
      bind_of _ t (IsTarget-target_of step.method step.response_body_limit step.url t first)
        (bind_of _ ts (AreTargets-step_targets l ts others) refl)

  pub targets-Collects :
      (req : RequestConfig) (o : Option ScenarioConfig) (ts : List TargetEndpoint)
      → targets lib req o ≡ ok ts
      → Collects req o ts
  unfolding targets
  targets-Collects req (some scenario) ts h = step_targets-AreTargets scenario.steps ts h
  targets-Collects req none ts h =
      let (t, first, h1) =
        ok_parts (target_of lib req.method req.response_body_limit (lib.parse_url req.url)) h in
      subst (Collects req none) (ok-injective h1) (
        target_of-IsTarget req.method req.response_body_limit req.url (lib.parse_url req.url) refl
          first)

  pub Collects-targets :
      (req : RequestConfig) (o : Option ScenarioConfig) (ts : List TargetEndpoint)
      → Collects req o ts
      → targets lib req o ≡ ok ts
  unfolding targets
  Collects-targets req (some scenario) ts h = AreTargets-step_targets scenario.steps ts h
  Collects-targets req none [] h = elim h [ ]
  Collects-targets req none (t ∷ []) h =
      bind_of _ t (IsTarget-target_of req.method req.response_body_limit req.url t h) refl
  Collects-targets req none (_ ∷ _ ∷ _) h = elim h [ ]
