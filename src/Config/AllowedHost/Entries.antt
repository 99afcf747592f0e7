-- ===== src/Config/AllowedHost/Entries.antt =====
-- What NormalizeAllowedHosts keeps of a list: normal forms, each once.
use daegsa.Prelude.{
  ℕ, suc, Bool, false, List, [], ◌∷◌, ◌++◌, some, ◌≡◌, refl, subst, arith, All, All-append, any,
  if◌then◌else◌, Bool-cases, inl, inr, some_inj,
}
use daegsa.Prelude.Text.{Text, text_eq}
use daegsa.Prelude.Result.{Result, ok, err, ok_parts, ok-injective}
use daegsa.Config.AllowedHost.{
  HostLibrary, HostError, entry, normalize_allowed_host, normalize_entries, normalize_allowed_hosts,
}
use daegsa.Config.AllowedHost.Canonical.{IsCanonical, normalize_allowed_host-IsCanonical}

-- No text of the list equals a later one.
abbrev pub HasNoRepeat : List Text → Type 0
HasNoRepeat [] = Unit
HasNoRepeat (t ∷ l) = All (λ u. text_eq t u ≡ false) l × HasNoRepeat l

HasNoRepeat-snoc :
    (l : List Text) (v : Text)
    → any (λ h. text_eq h v) l ≡ false
    → HasNoRepeat l
    → HasNoRepeat (l ++ v ∷ [])
HasNoRepeat-snoc [] v absent h = (tt, tt)
HasNoRepeat-snoc (t ∷ l) v absent h = (
  All-append (λ u. text_eq t u ≡ false) l (v ∷ []) h.0 (ground arith),
  HasNoRepeat-snoc l v (ground arith) h.1,
)

module _ (lib : HostLibrary) (allow_wildcard : Bool) where
  pub record IsAllowlist (l : List Text) : Type 0 where
    pub canonical : All (IsCanonical lib allow_wildcard) l
    pub no_repeat : HasNoRepeat l

  keep-IsAllowlist :
      (seen : List Text) (v : Text)
      → IsCanonical lib allow_wildcard v
      → IsAllowlist seen
      → IsAllowlist (if any (λ h. text_eq h v) seen then seen else seen ++ v ∷ [])
  keep-IsAllowlist seen v c h = elim (Bool-cases (any (λ h. text_eq h v) seen)) [
    | inl e ↦ rw e h
    | inr e ↦ rw e (record {
      canonical = All-append (IsCanonical lib allow_wildcard) seen (v ∷ []) h.canonical (c, tt);
      no_repeat = HasNoRepeat-snoc seen v e h.no_repeat;
    })
  ]

  normalize_entries-IsAllowlist :
      (index : ℕ) (hosts seen : List Text) {kept : List Text}
      → IsAllowlist seen
      → normalize_entries lib allow_wildcard index hosts seen ≡ ok kept
      → IsAllowlist kept
  unfolding normalize_entries
  normalize_entries-IsAllowlist index [] seen h e = subst IsAllowlist (ok-injective e) h
  normalize_entries-IsAllowlist index (host ∷ rest) seen {kept} h e =
      go (normalize_allowed_host lib host allow_wildcard) refl e
        (λ seen' h' e'. normalize_entries-IsAllowlist (suc index) rest seen' h' e')
    where
      go :
          (r : Result HostError Text)
          → normalize_allowed_host lib host allow_wildcard ≡ r
          → elim r [
            | ok normalized ↦
                normalize_entries lib allow_wildcard
                  (suc index)
                  rest
                  (if any (λ h. text_eq h normalized) seen then seen else seen ++ normalized ∷ [])
            | err x ↦ err (entry index x)
          ]
            ≡ ok kept
          → ((seen' : List Text)
              → IsAllowlist seen'
              → normalize_entries lib allow_wildcard (suc index) rest seen' ≡ ok kept
              → IsAllowlist kept)
          → IsAllowlist kept
      go (err x) n e ih = cc
      go (ok v) n e ih =
          ih _
            (keep-IsAllowlist seen v (normalize_allowed_host-IsCanonical lib host allow_wildcard n)
              h)
            e

  -- A list of hosts that is accepted has become a list of normal forms in which none stands twice.
  pub normalize_allowed_hosts-IsAllowlist :
      (hosts : List Text) {kept : List Text}
      → normalize_allowed_hosts lib (some hosts) allow_wildcard ≡ ok (some kept)
      → IsAllowlist kept
  unfolding normalize_allowed_hosts
  normalize_allowed_hosts-IsAllowlist hosts h =
      let (l, e, same) =
        ok_parts {g = λ kept. ok (some kept)} (normalize_entries lib allow_wildcard 0 hosts []) h in
      subst IsAllowlist (some_inj (ok-injective same))
        (normalize_entries-IsAllowlist 0 hosts [] (record { canonical = tt; no_repeat = tt }) e)
