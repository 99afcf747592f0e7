-- ===== src/Config/AllowedHost.antt =====
-- internal/config/allowedhost.go. net.ParseIP, its text form and its loopback test are code of the
-- standard library that the model takes as the parameter `HostLibrary`.
pub mod Canonical
pub mod Entries
use daegsa.Prelude.{
  suc, ℕ, Bool, true, false, List, [], ◌∷◌, ◌++◌, Option, none, some, ◌||◌, ◌&&◌, not, ltb, leb,
  ◌==◌, if◌then◌else◌, any, is_empty,
}
use daegsa.Prelude.Text.{Text, codes, contains, strip_prefix, text_eq}
use daegsa.Prelude.Strings.{
  Unicode, to_lower, trim_space, contains_any, trim_last, split_on, byte_len,
}
use daegsa.Prelude.Result.{Result, ok, err, ◌>>=◌}

pub record HostLibrary : Type 1 where
  pub unicode : Unicode
  pub Ip : Type 0
  pub parse_ip : Text → Option Ip
  pub ip_text : Ip → Text
  pub ip_is_loopback : Ip → Bool

pub data HostError : Type 0 where
  empty_host wildcard_not_permitted not_host_only invalid_host ip_wildcard has_port : HostError
  name_too_long empty_label label_too_long hyphen_at_edge invalid_character : HostError
  entry : ℕ → HostError → HostError

abbrev pub wildcard_host_prefix : Text
wildcard_host_prefix = codes "*."

abbrev pub localhost_host : Text
localhost_host = codes "localhost"

abbrev pub max_dns_name_length : ℕ
max_dns_name_length = 253

abbrev pub max_dns_label_length : ℕ
max_dns_label_length = 63

unfoldable pub is_label_char : ℕ → Bool
is_label_char c = (leb b'a' c && leb c b'z') || (leb b'0' c && leb c b'9') || c == b'-'

abbrev pub first_is : ℕ → Text → Bool
first_is d [] = false
first_is d (c ∷ s) = c == d

abbrev pub last_is : ℕ → Text → Bool
last_is d [] = false
last_is d (c ∷ []) = c == d
last_is d (c ∷ e ∷ s) = last_is d (e ∷ s)

unfoldable pub check_chars : Text → Option HostError
unfolding is_label_char
check_chars [] = none
check_chars (c ∷ s) = if not (is_label_char c) then some invalid_character else check_chars s

unfoldable pub check_label : Text → Option HostError
check_label label =
    if is_empty label
    then some empty_label
    else if ltb max_dns_label_length (byte_len label)
    then some label_too_long
    else if first_is b'-' label || last_is b'-' label
    then some hyphen_at_edge
    else check_chars label

-- The loop over the labels, which ends at the first error.
abbrev pub or_next : Option HostError → Option HostError → Option HostError
or_next none next = next
or_next (some e) next = some e

unfoldable pub check_labels : List Text → Option HostError
check_labels [] = none
check_labels (label ∷ rest) = or_next (check_label label) (check_labels rest)

unfoldable pub validate_dns_name : Text → Option HostError
validate_dns_name host =
    if ltb max_dns_name_length (byte_len host)
    then some name_too_long
    else check_labels (split_on b'.' host)

module _ (lib : HostLibrary) where
  open lib use {unicode, Ip, parse_ip, ip_text, ip_is_loopback}

  -- A name that is no IP address.
  pub normalize_name : Bool → Text → Option HostError → Result HostError Text
  normalize_name is_wildcard host (some e) = err e
  normalize_name is_wildcard host none =
      ok (if is_wildcard then wildcard_host_prefix ++ host else host)

  pub normalize_address : Bool → Text → Option Ip → Result HostError Text
  normalize_address is_wildcard host (some ip) =
      if is_wildcard then err ip_wildcard else ok (ip_text ip)
  normalize_address is_wildcard host none =
      if contains host (codes ":")
      then err has_port
      else normalize_name is_wildcard host (validate_dns_name host)

  -- What follows the test for a wildcard.
  pub normalize_rest : Bool → Text → Result HostError Text
  normalize_rest is_wildcard host =
      if contains host (codes "://") || contains_any host (codes "/?#@")
      then err not_host_only
      else if is_empty (trim_last b'.' host)
      then err invalid_host
      else normalize_address is_wildcard (trim_last b'.' host) (parse_ip (trim_last b'.' host))

  pub normalize_wildcard : Bool → Text → Option Text → Result HostError Text
  normalize_wildcard allow_wildcard host none = normalize_rest false host
  normalize_wildcard allow_wildcard host (some domain) =
      if not allow_wildcard then err wildcard_not_permitted else normalize_rest true domain

  unfoldable pub normalize_allowed_host : Text → Bool → Result HostError Text
  unfolding normalize_wildcard normalize_rest normalize_address normalize_name
  normalize_allowed_host raw allow_wildcard =
      let host = to_lower unicode (trim_space unicode raw) in
      if is_empty host
      then err empty_host
      else normalize_wildcard allow_wildcard host (strip_prefix host wildcard_host_prefix)

  -- The loop of NormalizeAllowedHosts: `index` counts the entries, and `seen` holds what is kept.
  pub normalize_entries : Bool → ℕ → List Text → List Text → Result HostError (List Text)
  normalize_entries allow_wildcard index [] seen = ok seen
  normalize_entries allow_wildcard index (host ∷ rest) seen =
      elim (normalize_allowed_host host allow_wildcard) [
        | ok normalized ↦
            normalize_entries allow_wildcard (suc index) rest
              (if any (λ h. text_eq h normalized) seen then seen else seen ++ normalized ∷ [])
        | err e ↦ err (entry index e)
      ]

  -- `none` is a nil slice.
  unfoldable pub normalize_allowed_hosts :
      Option (List Text) → Bool → Result HostError (Option (List Text))
  unfolding normalize_entries
  normalize_allowed_hosts none allow_wildcard = ok none
  normalize_allowed_hosts (some hosts) allow_wildcard =
      normalize_entries allow_wildcard 0 hosts [] >>= λ kept. ok (some kept)

  pub is_loopback_address : Option Ip → Bool
  is_loopback_address none = false
  is_loopback_address (some ip) = ip_is_loopback ip

  pub is_loopback_normalized : Result HostError Text → Bool
  is_loopback_normalized (err e) = false
  is_loopback_normalized (ok host) =
      text_eq host localhost_host || is_loopback_address (parse_ip host)

  unfoldable pub is_loopback_host : Text → Bool
  unfolding is_loopback_normalized is_loopback_address
  is_loopback_host host = is_loopback_normalized (normalize_allowed_host host false)
