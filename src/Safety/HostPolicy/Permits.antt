-- ===== src/Safety/HostPolicy/Permits.antt =====
-- What the allowlist permits, said without the code: an allowed pattern is the host itself, or a
-- wildcard for the host or for a domain of which the host is a subdomain.
use daegsa.Prelude.{
  true, false, List, [], ◌∷◌, ◌++◌, Option, none, some, ◌≡◌, ◌↔◌, ◌⊎◌, inl, inr, refl, sym, ◌∙◌, ap,
  Bool-cases, or_left, or_right, any,
}
use mathlib.Core.Bool.{false≢true}
use daegsa.Prelude.Text.{
  Text, strip_prefix, strip_prefix_sound, strip_prefix_complete, text_eq, text_eq_sound,
  text_eq_complete, text_eq_refl,
}
use daegsa.Prelude.Strings.{has_suffix, has_suffix_sound, has_suffix_complete}
use daegsa.Prelude.Result.{Result, ok, err}
use daegsa.Config.AllowedHost.{HostLibrary, HostError, normalize_allowed_host, wildcard_host_prefix}
use daegsa.Safety.HostPolicy.{
  under_domain, pattern_allows, normalized_host_allowed, is_host_allowed,
}

pub data Permits (host pattern : Text) : Type 0 where
  exact : pattern ≡ host → Permits host pattern
  apex : pattern ≡ wildcard_host_prefix ++ host → Permits host pattern
  below :
      (front domain : Text)
      → host ≡ front ++ (b'.' ∷ domain)
      → pattern ≡ wildcard_host_prefix ++ domain
      → Permits host pattern

under_domain_sound :
    (lib : HostLibrary) (host pattern : Text) (o : Option Text)
    → strip_prefix pattern wildcard_host_prefix ≡ o
    → under_domain lib host o ≡ true
    → Permits host pattern
unfolding under_domain
under_domain_sound lib host pattern none e h = cc
under_domain_sound lib host pattern (some domain) e h =
    let split = strip_prefix_sound pattern wildcard_host_prefix e in
    elim (Bool-cases (text_eq host domain)) [
      | inl same ↦
          apex (split ∙ ap (λ t. wildcard_host_prefix ++ t) (sym (text_eq_sound host domain same)))
      | inr other ↦
          let (front, tail) = has_suffix_sound host (b'.' ∷ domain) (rw other at h) in
          below front domain tail split
    ]

module _ (lib : HostLibrary) where
  pattern_allows_sound :
      (host pattern : Text) → pattern_allows lib host (ok pattern) ≡ true → Permits host pattern
  unfolding pattern_allows
  pattern_allows_sound host pattern h = elim (Bool-cases (text_eq pattern host)) [
    | inl same ↦ exact (text_eq_sound pattern host same)
    | inr other ↦ under_domain_sound lib host pattern _ refl (rw other at h)
  ]

  strip_of :
      {pattern : Text} (domain : Text)
      → pattern ≡ wildcard_host_prefix ++ domain
      → strip_prefix pattern wildcard_host_prefix ≡ some domain
  strip_of domain e =
      ap (λ p. strip_prefix p wildcard_host_prefix) e
      ∙ strip_prefix_complete wildcard_host_prefix domain

  under_apex : (host : Text) → under_domain lib host (some host) ≡ true
  unfolding under_domain
  under_apex host = or_left _ _ (text_eq_refl host)

  under_below :
      (host front domain : Text)
      → host ≡ front ++ (b'.' ∷ domain)
      → under_domain lib host (some domain) ≡ true
  unfolding under_domain
  under_below host front domain e =
      or_right _ _
        (ap (λ h. has_suffix h (b'.' ∷ domain)) e ∙ has_suffix_complete front (b'.' ∷ domain))

  pattern_allows_complete :
      (host pattern : Text) → Permits host pattern → pattern_allows lib host (ok pattern) ≡ true
  unfolding pattern_allows
  pattern_allows_complete host pattern (exact e) = or_left _ _ (text_eq_complete pattern host e)
  pattern_allows_complete host pattern (apex e) =
      or_right _ _ (ap (under_domain lib host) (strip_of host e) ∙ under_apex host)
  pattern_allows_complete host pattern (below front domain e k) =
      or_right _ _
        (ap (under_domain lib host) (strip_of domain k) ∙ under_below host front domain e)

  -- Some pattern of the list is well formed and permits the host.
  abbrev pub SomePermits : Text → List Text → Type 0
  SomePermits host [] = ⊥
  SomePermits host (p ∷ ps) =
      ((q : Text) × (normalize_allowed_host lib p true ≡ ok q) × Permits host q)
      ⊎ SomePermits host ps

  pattern_allows-ok :
      (host : Text) (r : Result HostError Text)
      → pattern_allows lib host r ≡ true
      → (q : Text) × (r ≡ ok q) × Permits host q
  pattern_allows-ok host (ok q) h = (q, refl, pattern_allows_sound host q h)
  pattern_allows-ok host (err e) h = unfold pattern_allows in cc

  any_sound :
      (host : Text) (l : List Text)
      → any (λ p. pattern_allows lib host (normalize_allowed_host lib p true)) l ≡ true
      → SomePermits host l
  any_sound host [] h = cc
  any_sound host (p ∷ ps) h =
      elim (Bool-cases (pattern_allows lib host (normalize_allowed_host lib p true))) [
        | inl yes_here ↦ inl (pattern_allows-ok host _ yes_here)
        | inr not_here ↦ inr (any_sound host ps (rw not_here at h))
      ]

  any_complete :
      (host : Text) (l : List Text)
      → SomePermits host l
      → any (λ p. pattern_allows lib host (normalize_allowed_host lib p true)) l ≡ true
  any_complete host [] h = elim h [ ]
  any_complete host (p ∷ ps) (inl (q, e, h)) =
      or_left _ _ (ap (pattern_allows lib host) e ∙ pattern_allows_complete host q h)
  any_complete host (p ∷ ps) (inr h) = or_right _ _ (any_complete host ps h)

  normalized_sound :
      (l : List Text) (r : Result HostError Text)
      → normalized_host_allowed lib l r ≡ true
      → (h : Text) × (r ≡ ok h) × SomePermits h l
  unfolding normalized_host_allowed
  normalized_sound l (ok h) e = (h, refl, any_sound h l e)
  normalized_sound l (err x) e = cc

  normalized_complete :
      (l : List Text) (h : Text) → SomePermits h l → normalized_host_allowed lib l (ok h) ≡ true
  unfolding normalized_host_allowed
  normalized_complete l h = any_complete h l

  is_host_allowed_cons :
      (host p : Text) (ps : List Text)
      → is_host_allowed lib host (p ∷ ps)
        ≡ normalized_host_allowed lib (p ∷ ps) (normalize_allowed_host lib host false)
  unfolding is_host_allowed
  is_host_allowed_cons host p ps = refl

  -- A host is allowed exactly when it is well formed and some well-formed pattern of the list
  -- permits its normal form: a wildcard reaches a domain and its subdomains, and no other host that
  -- merely ends in the domain's text. An empty list allows no host.
  pub is_host_allowed-iff-Permits :
      (host : Text) (allowed_hosts : List Text)
      → (is_host_allowed lib host allowed_hosts ≡ true) ↔ (
          (h : Text) × (normalize_allowed_host lib host false ≡ ok h) × SomePermits h allowed_hosts)
  is_host_allowed-iff-Permits host [] =
      (λ h. unfold is_host_allowed in absurd (false≢true h), λ x. elim x.2 [ ])
  is_host_allowed-iff-Permits host (p ∷ ps) = (
    λ e. normalized_sound (p ∷ ps) _ (sym (is_host_allowed_cons host p ps) ∙ e),
    λ (h, e, some_pattern).
        is_host_allowed_cons host p ps
        ∙ ap (normalized_host_allowed lib (p ∷ ps)) e
        ∙ normalized_complete (p ∷ ps) h some_pattern,
  )
