-- ===== src/Config/AllowedHost/Canonical.antt =====
-- What NormalizeAllowedHost returns: the text of an IP address, a DNS name in lower case, or a
-- wildcard for such a name.
use daegsa.Prelude.{
  ℕ, ◌≤◌, Bool, true, false, List, [], ◌∷◌, ◌++◌, Option, none, some, ◌≡◌, ◌≢◌, ◌⊎◌, inl, inr, refl,
  sym, subst, arith, ◌||◌, All, is_empty,
}
use daegsa.Prelude.Text.{Text, contains, codes}
use daegsa.Prelude.Strings.{split_on, byte_len, to_lower, trim_space, trim_last, contains_any}
use daegsa.Prelude.Result.{ok, ok-injective, unless_err}
use daegsa.Config.AllowedHost.{
  HostLibrary, HostError, first_is, last_is, check_chars, check_label, check_labels,
  validate_dns_name, normalize_name, normalize_address, normalize_rest, normalize_wildcard,
  normalize_allowed_host, wildcard_host_prefix,
}

-- A lower-case letter, a digit or a hyphen.
abbrev pub IsLabelChar : ℕ → Type 0
IsLabelChar c = (b'a' ≤ c) × (c ≤ b'z') ⊎ (b'0' ≤ c) × (c ≤ b'9') ⊎ (c ≡ b'-')

pub record IsLabel (label : Text) : Type 0 where
  pub nonempty : label ≢ []
  pub short : byte_len label ≤ 63
  pub no_leading_hyphen : first_is b'-' label ≡ false
  pub no_trailing_hyphen : last_is b'-' label ≡ false
  pub chars : All IsLabelChar label

pub record IsDnsName (name : Text) : Type 0 where
  pub short : byte_len name ≤ 253
  pub labels : All IsLabel (split_on b'.' name)

check_chars_sound : (s : Text) → check_chars s ≡ none → All IsLabelChar s
unfolding check_chars
check_chars_sound [] h = tt
check_chars_sound (c ∷ s) h = ground (arith, check_chars_sound s)

check_label_sound : (s : Text) → check_label s ≡ none → IsLabel s
unfolding check_label
check_label_sound [] h = cc
check_label_sound (c ∷ s) h = record {
  nonempty = λ e. cc;
  short = ground arith;
  no_leading_hyphen = ground arith;
  no_trailing_hyphen = ground arith;
  chars = check_chars_sound (c ∷ s) (ground arith);
}

check_labels_sound : (l : List Text) → check_labels l ≡ none → All IsLabel l
unfolding check_labels
check_labels_sound [] h = tt
check_labels_sound (s ∷ l) h = ground (arith, check_label_sound s, check_labels_sound l)

validate_dns_name_sound : (s : Text) → validate_dns_name s ≡ none → IsDnsName s
unfolding validate_dns_name
validate_dns_name_sound s h = record {
  short = ground arith;
  labels = check_labels_sound (split_on b'.' s) (ground arith);
}

module _ (lib : HostLibrary) where
  abbrev IsAddressOrName : Text → Type 0
  IsAddressOrName r = ((ip : lib.Ip) × (r ≡ lib.ip_text ip)) ⊎ IsDnsName r

  abbrev IsWildcard : Text → Type 0
  IsWildcard r = (domain : Text) × (r ≡ wildcard_host_prefix ++ domain) × IsDnsName domain

  -- The normal forms, with those that need permission for a wildcard.
  abbrev pub IsCanonical : Bool → Text → Type 0
  IsCanonical false r = IsAddressOrName r
  IsCanonical true r = IsAddressOrName r ⊎ IsWildcard r

  name_sound :
      (w : Bool) (host : Text) (o : Option HostError) {r : Text}
      → validate_dns_name host ≡ o
      → normalize_name lib w host o ≡ ok r
      → IsCanonical w r
  unfolding normalize_name
  name_sound w host (some e) v h = cc
  name_sound true host none v h = inr (host, sym (ok-injective h), validate_dns_name_sound host v)
  name_sound false host none {r} v h =
      inr (subst IsDnsName (ok-injective h) (validate_dns_name_sound host v))

  address_sound :
      (w : Bool) (host : Text) (o : Option lib.Ip) {r : Text}
      → normalize_address lib w host o ≡ ok r
      → IsCanonical w r
  unfolding normalize_address
  address_sound true host (some ip) h = cc
  address_sound false host (some ip) h = inl (ip, sym (ok-injective h))
  address_sound w host none h =
      name_sound w host _ refl (unless_err (contains host (codes ":")) _ h)

  rest_sound :
      (w : Bool) (host : Text) {r : Text} → normalize_rest lib w host ≡ ok r → IsCanonical w r
  unfolding normalize_rest
  rest_sound w host h = address_sound w (trim_last b'.' host) _ (
      unless_err (is_empty (trim_last b'.' host)) _
        (unless_err (contains host (codes "://") || contains_any host (codes "/?#@")) _ h))

  widen : (w : Bool) (r : Text) → IsCanonical false r → IsCanonical w r
  widen true r h = inl h
  widen false r h = h

  wildcard_sound :
      (allow : Bool) (host : Text) (o : Option Text) {r : Text}
      → normalize_wildcard lib allow host o ≡ ok r
      → IsCanonical allow r
  unfolding normalize_wildcard
  wildcard_sound allow host none {r} h = widen allow r (rest_sound false host h)
  wildcard_sound true host (some domain) h = rest_sound true domain h
  wildcard_sound false host (some domain) h = cc

  -- A host that is accepted has become the text of an IP address or a DNS name, or, where wildcards
  -- are allowed, "*." before a DNS name. A DNS name takes at most 253 bytes, and each part between
  -- its dots has 1 to 63 bytes, only lower-case letters, digits and hyphens, and no hyphen at an end.
  pub normalize_allowed_host-IsCanonical :
      (host : Text) (allow_wildcard : Bool) {r : Text}
      → normalize_allowed_host lib host allow_wildcard ≡ ok r
      → IsCanonical allow_wildcard r
  unfolding normalize_allowed_host
  normalize_allowed_host-IsCanonical host allow h =
      let host' = to_lower lib.unicode (trim_space lib.unicode host) in
      wildcard_sound allow host' _ (unless_err (is_empty host') _ h)
