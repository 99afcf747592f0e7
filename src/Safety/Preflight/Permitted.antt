-- ===== src/Safety/Preflight/Permitted.antt =====
-- The tests of targets and ceilings in Check of internal/safety/preflight.go, said as conditions.
use daegsa.Prelude.{
  Bool, true, false, List, [], ◌∷◌, Option, none, some, ◌≡◌, ◌↔◌, ◌⊎◌, inl, inr, refl, sym, ◌∙◌,
  arith, ◌&&◌, not, is_empty, any, All, some_inj, subst, Bool-cases,
}
use mathlib.Core.Bool.{false≢true}
use daegsa.Prelude.Int.{ℤ, pos, ltb_ℤ, ◌≤ℤ◌}
use daegsa.Prelude.Float.{Floats}
use daegsa.Prelude.Text.{Text, codes, text_eq, text_eq_sound, text_eq_complete}
use daegsa.Prelude.Strings.{Unicode, to_upper, trim_space}
use daegsa.Prelude.Result.{ok, ok_parts, guard_parts, guard_of, bind_of}
use daegsa.Config.Types.{LoadConfig, SafetyConfig}
use daegsa.Config.Bytes.{parse_byte_size}
use daegsa.Config.Validate.{ConfigLibrary}
use daegsa.Safety.HostPolicy.{
  is_host_allowed, is_destructive_method, max_allowed_duration, max_allowed_response_body_limit,
  max_allowed_rate, max_allowed_users, max_allowed_in_flight,
}
use daegsa.Safety.Preflight.{
  target_not_allowed, destructive_target, body_limit_exceeded, duration_exceeded, rate_exceeded,
  users_exceeded, in_flight_exceeded, SafetyFlags, TargetEndpoint, allowed_list, exceeds_limit,
  check_target, check_targets, check_figures,
}

abbrev pub IsOneOf : Text → List Text → Type 0
IsOneOf m [] = ⊥
IsOneOf m (x ∷ l) = (m ≡ x) ⊎ IsOneOf m l

abbrev pub changing_methods : List Text
changing_methods = codes "POST" ∷ codes "PUT" ∷ codes "PATCH" ∷ codes "DELETE" ∷ []

-- The methods that change what they are sent to, spaces around them and the case of their letters
-- aside.
abbrev pub IsDestructive : Unicode → Text → Type 0
IsDestructive unicode method =
    IsOneOf (to_upper unicode (trim_space unicode method)) changing_methods

any-IsOneOf : (m : Text) (l : List Text) → any (λ x. text_eq m x) l ≡ true → IsOneOf m l
any-IsOneOf m [] h = cc
any-IsOneOf m (x ∷ l) h = elim (Bool-cases (text_eq m x)) [
  | inl e ↦ inl (text_eq_sound m x e)
  | inr e ↦ inr (any-IsOneOf m l (rw e at h))
]

IsOneOf-any : (m : Text) (l : List Text) → IsOneOf m l → any (λ x. text_eq m x) l ≡ true
IsOneOf-any m [] h = elim h [ ]
IsOneOf-any m (x ∷ l) (inl e) = rw (text_eq_complete m x e) refl
IsOneOf-any m (x ∷ l) (inr h) = ground (arith, IsOneOf-any m l h)

is_destructive_method-iff-IsDestructive :
    (unicode : Unicode) (method : Text)
    → (is_destructive_method unicode method ≡ true) ↔ IsDestructive unicode method
unfolding is_destructive_method
is_destructive_method-iff-IsDestructive unicode method = (
  any-IsOneOf (to_upper unicode (trim_space unicode method)) changing_methods,
  IsOneOf-any (to_upper unicode (trim_space unicode method)) changing_methods,
)

harmless :
    (unicode : Unicode) (method : Text)
    → is_destructive_method unicode method ≡ false
    → IsDestructive unicode method
    → ⊥
harmless unicode method h d =
    let yet = (is_destructive_method-iff-IsDestructive unicode method).1 d in
    false≢true (sym h ∙ yet)

not_destructive :
    (unicode : Unicode) (method : Text)
    → (IsDestructive unicode method → ⊥)
    → is_destructive_method unicode method ≡ false
not_destructive unicode method h = elim (Bool-cases (is_destructive_method unicode method)) [
  | inl e ↦ absurd (h ((is_destructive_method-iff-IsDestructive unicode method).0 e))
  | inr e ↦ e
]

module _ {floats : Floats} (lib : ConfigLibrary floats) where
  -- What the policy asks of one target.
  pub record IsPermitted (safety : SafetyConfig) (flags : SafetyFlags) (t : TargetEndpoint)
      : Type 0 where
    pub host :
        (is_empty t.host ≡ true)
        ⊎ (is_host_allowed lib.hosts t.host (allowed_list safety.allowed_hosts) ≡ true)
    pub method :
        (IsDestructive lib.hosts.unicode t.method → ⊥)
        ⊎ ((safety.allow_non_idempotent ≡ true) ⊎ (flags.allow_destructive ≡ true))
    pub limit :
        (bytes : ℤ)
        → is_empty t.body_limit ≡ false
        → parse_byte_size lib.hosts.unicode floats lib.parse_float t.body_limit ≡ some bytes
        → bytes ≤ℤ pos max_allowed_response_body_limit

  pub record IsWithinCeilings (load : LoadConfig floats) (duration : ℤ) (peak : floats.Float)
      : Type 0 where
    pub lasts : duration ≤ℤ pos max_allowed_duration
    pub rate : floats.lt (floats.of_int (pos max_allowed_rate)) peak ≡ false
    pub users : load.users ≤ℤ pos max_allowed_users
    pub in_flight : load.max_in_flight ≤ℤ pos max_allowed_in_flight

  either_of : (a b : Bool) → (not a && not b) ≡ false → (a ≡ true) ⊎ (b ≡ true)
  either_of a b h = ground arith

  of_either : (a b : Bool) → (a ≡ true) ⊎ (b ≡ true) → (not a && not b) ≡ false
  of_either a b h = ground arith

  unless_of : (a b : Bool) → (a && b) ≡ false → (a ≡ false) ⊎ (b ≡ false)
  unless_of a b h = ground arith

  method_sound :
      (d a b : Bool) → (d && (not a && not b)) ≡ false → (d ≡ false) ⊎ ((a ≡ true) ⊎ (b ≡ true))
  method_sound d a b h = ground arith

  method_complete :
      (d a b : Bool) → (d ≡ false) ⊎ ((a ≡ true) ⊎ (b ≡ true)) → (d && (not a && not b)) ≡ false
  method_complete d a b h = ground arith

  host_sound : (e a : Bool) → (not e && not a) ≡ false → (e ≡ true) ⊎ (a ≡ true)
  host_sound e a h = ground arith

  limit_sound :
      (e : Bool) (o : Option ℤ)
      → (not e && exceeds_limit lib o) ≡ false
      → (bytes : ℤ) → e ≡ false
      → o ≡ some bytes
      → bytes ≤ℤ pos max_allowed_response_body_limit
  limit_sound e none h bytes p q = cc
  limit_sound e (some n) h bytes p q =
      let same : n ≡ bytes = some_inj q in
      let bound : n ≤ℤ pos max_allowed_response_body_limit = within n (rw p at h) in
      subst (λ b. b ≤ℤ pos max_allowed_response_body_limit) same bound
    where
      within :
          (n : ℤ) → exceeds_limit lib (some n) ≡ false → n ≤ℤ pos max_allowed_response_body_limit
      within n h = ground arith

  limit_complete :
      (e : Bool) (o : Option ℤ)
      → ((bytes : ℤ) → e ≡ false → o ≡ some bytes → bytes ≤ℤ pos max_allowed_response_body_limit)
      → (not e && exceeds_limit lib o) ≡ false
  limit_complete true o h = refl
  limit_complete false none h = refl
  limit_complete false (some n) h = ground (arith, h n refl refl)

  target_sound :
      (safety : SafetyConfig) (flags : SafetyFlags) (t : TargetEndpoint)
      → check_target lib safety flags t ≡ ok tt
      → IsPermitted safety flags t
  unfolding check_target
  target_sound safety flags t h =
      let (host, h1) = guard_parts _ target_not_allowed h in
      let (method, h2) = guard_parts _ destructive_target h1 in
      let (limit, h3) = guard_parts _ body_limit_exceeded h2 in
      record {
        host = either_of _ _ host;
        method = elim (method_sound _ _ _ method) [
          | inl e ↦ inl (harmless lib.hosts.unicode t.method e)
          | inr granted ↦ inr granted
        ];
        limit = limit_sound _ _ limit;
      }

  method_of :
      {A : Type 0} (t : TargetEndpoint)
      → (IsDestructive lib.hosts.unicode t.method → ⊥) ⊎ A
      → (is_destructive_method lib.hosts.unicode t.method ≡ false) ⊎ A
  method_of t (inl d) = inl (not_destructive lib.hosts.unicode t.method d)
  method_of t (inr granted) = inr granted

  target_complete :
      (safety : SafetyConfig) (flags : SafetyFlags) (t : TargetEndpoint)
      → IsPermitted safety flags t
      → check_target lib safety flags t ≡ ok tt
  unfolding check_target
  target_complete safety flags t h = guard_of _ target_not_allowed (of_either _ _ h.host) (
      guard_of _ destructive_target (method_complete _ _ _ (method_of t h.method))
        (guard_of _ body_limit_exceeded (limit_complete _ _ h.limit) refl))

  pub targets_sound :
      (safety : SafetyConfig) (flags : SafetyFlags) (l : List TargetEndpoint) {done : Unit {0}}
      → check_targets lib safety flags l ≡ ok done
      → All (IsPermitted safety flags) l
  unfolding check_targets
  targets_sound safety flags [] h = tt
  targets_sound safety flags (t ∷ l) h =
      let (_, first, rest) = ok_parts (check_target lib safety flags t) h in
      (target_sound safety flags t first, targets_sound safety flags l rest)

  pub targets_complete :
      (safety : SafetyConfig) (flags : SafetyFlags) (l : List TargetEndpoint)
      → All (IsPermitted safety flags) l
      → check_targets lib safety flags l ≡ ok tt
  unfolding check_targets
  targets_complete safety flags [] h = refl
  targets_complete safety flags (t ∷ l) h =
      bind_of _ tt (target_complete safety flags t h.0) (targets_complete safety flags l h.1)

  pub ceilings_sound :
      (load : LoadConfig floats) (duration : ℤ) (peak : floats.Float) {done : Unit {0}}
      → check_figures lib load (duration, peak) ≡ ok done
      → IsWithinCeilings load duration peak
  unfolding check_figures
  ceilings_sound load duration peak h =
      let (d, h1) = guard_parts (ltb_ℤ (pos max_allowed_duration) duration) duration_exceeded h in
      let (r, h2) = guard_parts _ rate_exceeded h1 in
      let (u, h3) = guard_parts (ltb_ℤ (pos max_allowed_users) load.users) users_exceeded h2 in
      let (f, h4) =
        guard_parts (ltb_ℤ (pos max_allowed_in_flight) load.max_in_flight) in_flight_exceeded h3 in
      record { lasts = ground arith; rate = r; users = ground arith; in_flight = ground arith }

  pub ceilings_complete :
      (load : LoadConfig floats) (duration : ℤ) (peak : floats.Float)
      → IsWithinCeilings load duration peak
      → check_figures lib load (duration, peak) ≡ ok tt
  unfolding check_figures
  ceilings_complete load duration peak h =
      let d : ltb_ℤ (pos max_allowed_duration) duration ≡ false = ground (arith, h.lasts) in
      let u : ltb_ℤ (pos max_allowed_users) load.users ≡ false = ground (arith, h.users) in
      let f : ltb_ℤ (pos max_allowed_in_flight) load.max_in_flight ≡ false =
        ground (arith, h.in_flight) in
      guard_of _ _ d (guard_of _ rate_exceeded h.rate (guard_of _ _ u (guard_of _ _ f refl)))
