-- ===== src/Examples/Hosts.antt =====
-- Hosts, and a list of allowed hosts.
use daegsa.Prelude.{true, false, List, [], ◌∷◌, none, some, ◌≡◌, ◌↔◌, refl, if◌then◌else◌}
use daegsa.Prelude.Text.{Text, codes, text_eq}
use daegsa.Prelude.Strings.{lower, is_space}
use daegsa.Prelude.Result.{ok}
use daegsa.Config.AllowedHost.{
  HostLibrary, normalize_allowed_host, normalize_allowed_hosts, check_labels, check_label,
  check_chars, validate_dns_name,
}
use daegsa.Config.AllowedHost.Entries.{IsAllowlist, normalize_allowed_hosts-IsAllowlist}
use daegsa.Config.AllowedHost.Canonical.{IsCanonical, normalize_allowed_host-IsCanonical}
use daegsa.Safety.HostPolicy.{is_host_allowed}
use daegsa.Safety.HostPolicy.Permits.{SomePermits, is_host_allowed-iff-Permits}

-- One address is known, and no letter or space but those of ASCII.
abbrev pub one_address : HostLibrary
one_address = record {
  unicode = record { lower_rune = λ c. c; upper_rune = λ c. c; is_space_rune = λ _. false };
  Ip = Text;
  parse_ip = λ s. if text_eq s (codes "127.0.0.1") then some s else none;
  ip_text = λ ip. ip;
  ip_is_loopback = λ _. true;
}

abbrev patterns : List Text
patterns = codes "*.example.org" ∷ codes "127.0.0.1" ∷ []

example_org-ok :
    normalize_allowed_host one_address (codes " *.Example.ORG. ") true ≡ ok (codes "*.example.org")
unfolding normalize_allowed_host is_space lower validate_dns_name check_labels check_label
    check_chars
example_org-ok = refl

normalize_allowed_host-IsCanonical_example : IsCanonical one_address true (codes "*.example.org")
normalize_allowed_host-IsCanonical_example =
    normalize_allowed_host-IsCanonical one_address (codes " *.Example.ORG. ") true example_org-ok

is_host_allowed-iff-Permits_example :
    (is_host_allowed one_address (codes "api.example.org") patterns ≡ true) ↔ (
      (h : Text) × (normalize_allowed_host one_address (codes "api.example.org") false ≡ ok h)
      × SomePermits one_address h patterns)
is_host_allowed-iff-Permits_example =
    is_host_allowed-iff-Permits one_address (codes "api.example.org") patterns

-- Three entries, of which the last is the first one again.
abbrev entries : List Text
entries = codes "API.example.org" ∷ codes "*.example.org" ∷ codes "api.example.org." ∷ []

abbrev kept : List Text
kept = codes "api.example.org" ∷ codes "*.example.org" ∷ []

entries-ok : normalize_allowed_hosts one_address (some entries) true ≡ ok (some kept)
unfolding normalize_allowed_hosts normalize_allowed_host is_space lower validate_dns_name
    check_labels check_label check_chars
entries-ok = refl

normalize_allowed_hosts-IsAllowlist_example : IsAllowlist one_address true kept
normalize_allowed_hosts-IsAllowlist_example =
    normalize_allowed_hosts-IsAllowlist one_address true entries entries-ok
