-- ===== src/Safety/Preflight/Authorized.antt =====
-- When Check of internal/safety/preflight.go authorizes a configuration.
use daegsa.Prelude.{
  Bool, true, false, List, [], ◌∷◌, ◌++◌, Option, none, some, ◌≡◌, ◌↔◌, ◌⊎◌, inl, inr, refl,
  is_empty, All, if◌then◌else◌,
}
use daegsa.Prelude.Int.{ℤ}
use daegsa.Prelude.Float.{Floats}
use daegsa.Prelude.Text.{Text, is_some}
use daegsa.Prelude.Result.{ok, ok_parts, bind_of}
use daegsa.Config.Types.{Config, ScenarioConfig}
use daegsa.Config.Validate.{ConfigLibrary}
use daegsa.Safety.Preflight.{
  SafetyFlags, TargetEndpoint, unique_after, PreflightResult, Network, targets, check_targets,
  figures, check_figures, looked_up, address_or, resolve_host, resolve_hosts, result_of, check,
}
use daegsa.Safety.Preflight.Targets.{Collects, targets-Collects, Collects-targets}
use daegsa.Safety.Preflight.Figures.{
  Measures, figures-Measures, Measures-figures, HostIs, unique_after_sound, unique_after_complete,
}
use daegsa.Safety.Preflight.Permitted.{
  IsPermitted, IsWithinCeilings, targets_sound, targets_complete, ceilings_sound, ceilings_complete,
}

module _ {floats : Floats} (lib : ConfigLibrary floats) where
  -- A host is an address, or is not looked up, or has addresses.
  abbrev pub Resolves : Network lib → SafetyFlags → Text → Type 0
  Resolves net flags host =
      (is_some (lib.hosts.parse_ip host) ≡ true)
      ⊎ ((flags.skip_dns_preflight ≡ true)
          ⊎ ((ip : lib.hosts.Ip) × (l : List lib.hosts.Ip) × (net.lookup host ≡ some (ip ∷ l))))

  -- A loop over a map visits all of its keys and nothing else.
  abbrev pub VisitsEach : Network lib → Type 1
  VisitsEach net = (P : Text → Type 0) (l : List Text) → All P (net.in_map_order l) ↔ All P l

  pub record IsAuthorized (net : Network lib) (cfg : Config floats) (flags : SafetyFlags)
      : Type 0 where
    pub endpoints : List TargetEndpoint
    pub duration : ℤ
    pub peak : floats.Float
    pub collected : Collects lib cfg.request cfg.scenario endpoints
    pub some_target : is_empty endpoints ≡ false
    pub permitted : All (IsPermitted lib cfg.safety flags) endpoints
    pub measured : Measures lib cfg.load duration peak
    pub within : IsWithinCeilings lib cfg.load duration peak
    pub resolved : All (HostIs (Resolves net flags)) endpoints

  resolve_sound :
      (net : Network lib) (flags : SafetyFlags) (host : Text) {ips : List lib.hosts.Ip}
      → resolve_host lib net flags host ≡ ok ips
      → Resolves net flags host
  unfolding resolve_host
  resolve_sound net flags host {ips} h =
      by_address (lib.hosts.parse_ip host) flags.skip_dns_preflight (net.lookup host) h
    where
      by_address :
          (o : Option lib.hosts.Ip) (skip : Bool) (found : Option (List lib.hosts.Ip))
          → address_or lib o (if skip then ok [] else looked_up lib found) ≡ ok ips
          → (is_some o ≡ true)
            ⊎ ((skip ≡ true)
                ⊎ ((ip : lib.hosts.Ip) × (l : List lib.hosts.Ip) × (found ≡ some (ip ∷ l))))
      by_address (some ip) skip found h = inl refl
      by_address none true found h = inr (inl refl)
      by_address none false none h = cc
      by_address none false (some []) h = cc
      by_address none false (some (ip ∷ l)) h = inr (inr (ip, l, refl))

  resolve_complete :
      (net : Network lib) (flags : SafetyFlags) (host : Text)
      → Resolves net flags host
      → (ips : List lib.hosts.Ip) × (resolve_host lib net flags host ≡ ok ips)
  unfolding resolve_host
  resolve_complete net flags host h =
      by_address (lib.hosts.parse_ip host) flags.skip_dns_preflight (net.lookup host) h
    where
      by_address :
          (o : Option lib.hosts.Ip) (skip : Bool) (found : Option (List lib.hosts.Ip))
          → (is_some o ≡ true)
            ⊎ ((skip ≡ true)
                ⊎ ((ip : lib.hosts.Ip) × (l : List lib.hosts.Ip) × (found ≡ some (ip ∷ l))))
          → (ips : List lib.hosts.Ip) × (address_or lib o
                (if skip then ok [] else looked_up lib found)
              ≡ ok ips)
      by_address (some ip) skip found h = (ip ∷ [], refl)
      by_address none true found h = ([], refl)
      by_address none false found (inl e) = cc
      by_address none false found (inr (inl e)) = cc
      by_address none false found (inr (inr (ip, l, e))) = (ip ∷ l, rw e refl)

  hosts_sound :
      (net : Network lib) (flags : SafetyFlags) (l : List Text) {ips : List lib.hosts.Ip}
      → resolve_hosts lib net flags l ≡ ok ips
      → All (Resolves net flags) l
  unfolding resolve_hosts
  hosts_sound net flags [] h = tt
  hosts_sound net flags (host ∷ l) h =
      let (_, first, h1) = ok_parts (resolve_host lib net flags host) h in
      let (_, rest, _) = ok_parts (resolve_hosts lib net flags l) h1 in
      (resolve_sound net flags host first, hosts_sound net flags l rest)

  hosts_complete :
      (net : Network lib) (flags : SafetyFlags) (l : List Text)
      → All (Resolves net flags) l
      → (ips : List lib.hosts.Ip) × (resolve_hosts lib net flags l ≡ ok ips)
  unfolding resolve_hosts
  hosts_complete net flags [] h = ([], refl)
  hosts_complete net flags (host ∷ l) h =
      let (ips, first) = resolve_complete net flags host h.0 in
      let (rest, others) = hosts_complete net flags l h.1 in (ips ++ rest, rw (first, others) refl)

  result_sound :
      (scenario : Option ScenarioConfig) (l : List TargetEndpoint) (ips : List lib.hosts.Ip)
      {r : PreflightResult lib}
      → result_of lib scenario l ips ≡ ok r
      → is_empty l ≡ false
  result_sound scenario [] ips h = cc
  result_sound scenario (t ∷ l) ips h = refl

  result_complete :
      (scenario : Option ScenarioConfig) (l : List TargetEndpoint) (ips : List lib.hosts.Ip)
      → is_empty l ≡ false
      → (r : PreflightResult lib) × (result_of lib scenario l ips ≡ ok r)
  result_complete scenario [] ips h = cc
  result_complete scenario (t ∷ l) ips h = (_, refl)

  check_sound :
      (net : Network lib) (order : VisitsEach net) (cfg : Config floats) (flags : SafetyFlags)
      {r : PreflightResult lib}
      → check lib net cfg flags ≡ ok r
      → IsAuthorized net cfg flags
  unfolding check
  check_sound net order cfg flags h =
      let (ts, ht, h1) = ok_parts (targets lib cfg.request cfg.scenario) h in
      let (_, hp, h2) = ok_parts (check_targets lib cfg.safety flags ts) h1 in
      let (f, hf, h3) = ok_parts (figures lib cfg.load) h2 in
      let (_, hc, h4) = ok_parts (check_figures lib cfg.load f) h3 in
      let (ips, hr, h5) =
        ok_parts (resolve_hosts lib net flags (net.in_map_order (unique_after [] ts))) h4 in
      record {
        endpoints = ts;
        duration = f.0;
        peak = f.1;
        collected = targets-Collects lib cfg.request cfg.scenario ts ht;
        some_target = result_sound cfg.scenario ts ips h5;
        permitted = targets_sound lib cfg.safety flags ts hp;
        measured = figures-Measures lib cfg.load f.0 f.1 hf;
        within = ceilings_sound lib cfg.load f.0 f.1 hc;
        resolved = unique_after_sound (Resolves net flags) [] ts tt (
            (order (Resolves net flags) (unique_after [] ts)).0
              (hosts_sound net flags (net.in_map_order (unique_after [] ts)) hr));
      }

  check_complete :
      (net : Network lib) (order : VisitsEach net) (cfg : Config floats) (flags : SafetyFlags)
      → IsAuthorized net cfg flags
      → (r : PreflightResult lib) × (check lib net cfg flags ≡ ok r)
  unfolding check
  check_complete net order cfg flags h =
      let (ips, found) = hosts_complete net flags (net.in_map_order (unique_after [] h.endpoints)) (
        (order (Resolves net flags) (unique_after [] h.endpoints)).1
          (unique_after_complete (Resolves net flags) [] h.endpoints h.resolved)) in
      let (r, given) = result_complete cfg.scenario h.endpoints ips h.some_target in
      (
        r,
        bind_of _ h.endpoints
            (Collects-targets lib cfg.request cfg.scenario h.endpoints h.collected)
            (bind_of _ tt (targets_complete lib cfg.safety flags h.endpoints h.permitted) (
              bind_of _ (h.duration, h.peak)
                (Measures-figures lib cfg.load h.duration h.peak h.measured)
                (bind_of _ tt (ceilings_complete lib cfg.load h.duration h.peak h.within)
                  (bind_of _ ips found given)))),
      )

  -- Where a loop over a map visits each of its keys, the preflight gives a result exactly when: the
  -- URL of every step of the scenario, or of the request where there is none, parses, and there is a
  -- target; every target's host, which is the host name of the URL or else its whole authority, is
  -- empty or allowed; its method is no POST, PUT, PATCH or DELETE, or these are permitted by the
  -- configuration or the flags; its body limit is within the ceiling where it parses; the duration and
  -- the peak rate, which are those of the load or, where it has segments, of its compiled profile, the
  -- users and the requests in flight are within their ceilings; and every host that is not empty is an
  -- address, is not to be looked up, or has an address.
  pub check-iff-IsAuthorized :
      (net : Network lib) (order : VisitsEach net) (cfg : Config floats) (flags : SafetyFlags)
      → ((r : PreflightResult lib) × (check lib net cfg flags ≡ ok r)) ↔ IsAuthorized net cfg flags
  check-iff-IsAuthorized net order cfg flags =
      (λ (r, h). check_sound net order cfg flags h, check_complete net order cfg flags)
