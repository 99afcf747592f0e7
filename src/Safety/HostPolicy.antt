-- ===== src/Safety/HostPolicy.antt =====
-- internal/safety/safety.go.
pub mod Permits
use daegsa.Prelude.{
  ℕ, suc, ◌-◌, Bool, true, false, List, [], ◌∷◌, ◌++◌, map, Option, none, some, ◌||◌, ◌&&◌, ltb,
  leb, if◌then◌else◌, any, is_empty,
}
use daegsa.Prelude.Text.{Text, codes, strip_prefix, text_eq}
use daegsa.Prelude.Strings.{Unicode, has_suffix, trim_space, to_upper}
use daegsa.Prelude.Result.{Result, ok, err}
use daegsa.Config.AllowedHost.{HostLibrary, HostError, normalize_allowed_host, wildcard_host_prefix}

-- The hard ceilings; a duration is in nanoseconds and a body limit in bytes.
abbrev pub max_allowed_duration : ℕ
max_allowed_duration = 86_400_000_000_000

abbrev pub max_allowed_response_body_limit : ℕ
max_allowed_response_body_limit = 52_428_800

abbrev pub max_allowed_rate : ℕ
max_allowed_rate = 1_000_000

abbrev pub max_allowed_users : ℕ
max_allowed_users = 100_000

abbrev pub max_allowed_in_flight : ℕ
max_allowed_in_flight = 100_000

abbrev pub max_redirect_hops : ℕ
max_redirect_hops = 10

module _ (lib : HostLibrary) where
  -- The wildcard test on a pattern and what follows its "*." prefix.
  pub under_domain : Text → Option Text → Bool
  under_domain host none = false
  under_domain host (some domain) = text_eq host domain || has_suffix host (b'.' ∷ domain)

  -- One round of the loop over the patterns.
  pub pattern_allows : Text → Result HostError Text → Bool
  unfolding under_domain
  pattern_allows host (err e) = false
  pattern_allows host (ok pattern) =
      text_eq pattern host || under_domain host (strip_prefix pattern wildcard_host_prefix)

  pub normalized_host_allowed : List Text → Result HostError Text → Bool
  unfolding pattern_allows
  normalized_host_allowed allowed_hosts (err e) = false
  normalized_host_allowed allowed_hosts (ok host) =
      any (λ pattern. pattern_allows host (normalize_allowed_host lib pattern true)) allowed_hosts

  unfoldable pub is_host_allowed : Text → List Text → Bool
  unfolding normalized_host_allowed
  is_host_allowed host allowed_hosts =
      if is_empty allowed_hosts
      then false
      else normalized_host_allowed allowed_hosts (normalize_allowed_host lib host false)

abbrev destructive_methods : List Text
destructive_methods = codes "POST" ∷ codes "PUT" ∷ codes "PATCH" ∷ codes "DELETE" ∷ []

unfoldable pub is_destructive_method : Unicode → Text → Bool
is_destructive_method unicode method =
    any (λ m. text_eq (to_upper unicode (trim_space unicode method)) m) destructive_methods
