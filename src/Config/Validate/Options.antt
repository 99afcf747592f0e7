-- ===== src/Config/Validate/Options.antt =====
-- The checks that a request and a step share, internal/config/validate.go: what each accepts is good,
-- and is accepted again as it stands.
use daegsa.Prelude.{
  true, false, List, [], ◌∷◌, Option, none, some, ◌≡◌, refl, sym, subst, inl, inr, arith, All,
  is_empty, if◌then◌else◌, Bool-cases,
}
use daegsa.Prelude.Int.{ℤ, pos, ◌<ℤ◌, ◌≤ℤ◌, ltb_ℤ, leb_ℤ, eqb_ℤ}
use daegsa.Prelude.Float.{Floats}
use daegsa.Prelude.Text.{Text, text_eq, text_eq_sound}
use daegsa.Prelude.Strings.{is_space, upper}
use daegsa.Prelude.Result.{ok, ok-injective, guard_parts, test_parts}
use daegsa.Config.Types.{
  default_request_timeout, default_response_body_limit, max_response_body_limit_bytes,
  redirect_same_origin,
}
use daegsa.Config.Bytes.{parse_byte_size}
use daegsa.Config.Validate.{
  negative_timeout, invalid_status, unsupported_method, invalid_redirects, zero_body_limit,
  body_limit_too_large, ConfigLibrary, one_of, methods, redirect_policies, check_timeout,
  all_statuses, check_statuses, check_redirects, check_method, normal_method, limit_in_range,
  check_body_limit,
}

-- What holds of every text of a list holds of a text that is one of them.
pub one_of_all {ℓ} :
    (P : Text → Type ℓ) (l : List Text) → All P l → (s : Text) → one_of s l ≡ true → P s
one_of_all P [] h s e = cc
one_of_all P (t ∷ l) h s e = elim (Bool-cases (text_eq s t)) [
  | inl same ↦ subst P (sym (text_eq_sound s t same)) h.0
  | inr other ↦ one_of_all P l h.1 s (rw other at e)
]

abbrev pub IsTimeout : ℤ → Type 0
IsTimeout t = pos 0 <ℤ t

abbrev pub IsStatus : ℤ → Type 0
IsStatus s = (pos 100 ≤ℤ s) × (s ≤ℤ pos 599)

pub record AreStatuses (l : List ℤ) : Type 0 where
  pub present : is_empty l ≡ false
  pub valid : All IsStatus l

pub check_timeout-IsTimeout :
    (t : ℤ) {t' : ℤ} → check_timeout t ≡ ok t' → IsTimeout t' × (check_timeout t' ≡ ok t')
unfolding check_timeout
check_timeout-IsTimeout t {t'} h =
    let (n, h1) = guard_parts (ltb_ℤ t (pos 0)) negative_timeout h in
    let same : (if eqb_ℤ t (pos 0) then default_request_timeout else t) ≡ t' = ok-injective h1 in
    subst (λ u. IsTimeout u × (check_timeout u ≡ ok u)) same
      (elim (Bool-cases (eqb_ℤ t (pos 0))) [
        | inl e ↦ rw e (omega arith, refl)
        | inr e ↦ rw e (ground arith, rw (n, e) refl)
      ])

all_statuses-valid : (l : List ℤ) → all_statuses l ≡ true → All IsStatus l
all_statuses-valid [] h = tt
all_statuses-valid (s ∷ l) h = (ground arith, all_statuses-valid l (ground arith))

pub check_statuses-AreStatuses :
    (l : List ℤ) {l' : List ℤ}
    → check_statuses l ≡ ok l'
    → AreStatuses l' × (check_statuses l' ≡ ok l')
unfolding check_statuses
check_statuses-AreStatuses [] h =
    subst (λ m. AreStatuses m × (check_statuses m ≡ ok m)) (ok-injective h)
      (record { present = refl; valid = ((omega arith, omega arith), tt) }, refl)
check_statuses-AreStatuses (s ∷ l) h =
    let (valid, h1) = test_parts (all_statuses (s ∷ l)) invalid_status h in
    subst (λ m. AreStatuses m × (check_statuses m ≡ ok m)) (ok-injective h1)
      (record { present = refl; valid = all_statuses-valid (s ∷ l) valid }, rw valid refl)

pub one_of_full :
    (s : Text) (l : List Text)
    → All (λ t. is_empty t ≡ false) l
    → one_of s l ≡ true
    → is_empty s ≡ false
one_of_full s l full h = one_of_all (λ t. is_empty t ≡ false) l full s h

check_redirects_of : (s : Text) → one_of s redirect_policies ≡ true → check_redirects s ≡ ok s
unfolding check_redirects
check_redirects_of s h = rw (one_of_full s redirect_policies (refl, (refl, (refl, tt))) h, h) refl

pub check_redirects_again :
    (s : Text) {s' : Text}
    → check_redirects s ≡ ok s'
    → (one_of s' redirect_policies ≡ true) × (check_redirects s' ≡ ok s')
unfolding check_redirects
check_redirects_again s h =
    let (known, h1) =
      test_parts (one_of (if is_empty s then redirect_same_origin else s) redirect_policies)
        invalid_redirects h in
    subst (λ u. (one_of u redirect_policies ≡ true) × (check_redirects u ≡ ok u)) (ok-injective h1)
      (known, check_redirects_of _ known)

pub check_method-one_of :
    (m : Text) {m' : Text} → check_method m ≡ ok m' → (m ≡ m') × (one_of m' methods ≡ true)
unfolding check_method
check_method-one_of m h =
    let (known, h1) = test_parts (one_of m methods) unsupported_method h in
    let same = ok-injective h1 in (same, subst (λ u. one_of u methods ≡ true) same known)

pub check_method_of : (m : Text) → one_of m methods ≡ true → check_method m ≡ ok m
unfolding check_method
check_method_of m h = rw h refl

module _ {floats : Floats} (lib : ConfigLibrary floats) where
  -- A method is in the normal form to which the code brings one before it looks it up.
  pub normal_method_of : (m : Text) → one_of m methods ≡ true → normal_method lib m ≡ m
  unfolding is_space upper
  normal_method_of m h =
      one_of_all (λ t. normal_method lib t ≡ t) methods
        (refl, (refl, (refl, (refl, (refl, (refl, (refl, tt))))))) m h

  pub method_full : (m : Text) → one_of m methods ≡ true → is_empty m ≡ false
  method_full m h =
      one_of_full m methods (refl, (refl, (refl, (refl, (refl, (refl, (refl, tt))))))) h

  -- The limit parses to a size from one byte to the hard limit.
  pub record IsBodyLimit (limit : Text) : Type 0 where
    pub bytes : ℤ
    pub parses : parse_byte_size lib.hosts.unicode floats lib.parse_float limit ≡ some bytes
    pub positive : pos 0 <ℤ bytes
    pub bounded : bytes ≤ℤ max_response_body_limit_bytes

  limit_in_range_parts :
      (limit : Text) (o : Option ℤ) {limit' : Text}
      → parse_byte_size lib.hosts.unicode floats lib.parse_float limit ≡ o
      → limit_in_range lib limit o ≡ ok limit'
      → IsBodyLimit limit × (limit ≡ limit')
  limit_in_range_parts limit none e h = cc
  limit_in_range_parts limit (some bytes) e h =
      let (zero, h1) = guard_parts (leb_ℤ bytes (pos 0)) zero_body_limit h in
      let (large, h2) =
        guard_parts (ltb_ℤ max_response_body_limit_bytes bytes) body_limit_too_large h1 in
      (
        record { bytes = bytes; parses = e; positive = ground arith; bounded = ground arith },
        ok-injective h2,
      )

  check_body_limit-of :
      (limit : Text)
      → is_empty limit ≡ false
      → IsBodyLimit limit
      → check_body_limit lib limit ≡ ok limit
  unfolding check_body_limit
  check_body_limit-of limit full h =
      let zero : leb_ℤ h.bytes (pos 0) ≡ false = ground (arith, h.positive) in
      let large : ltb_ℤ max_response_body_limit_bytes h.bytes ≡ false = ground (arith, h.bounded) in
      rw (full, h.parses, zero, large) refl

  limit_full : (s : Text) → is_empty (if is_empty s then default_response_body_limit else s) ≡ false
  limit_full [] = refl
  limit_full (c ∷ s) = refl

  pub check_body_limit-IsBodyLimit :
      (s : Text) {limit : Text}
      → check_body_limit lib s ≡ ok limit
      → IsBodyLimit limit × (check_body_limit lib limit ≡ ok limit)
  unfolding check_body_limit
  check_body_limit-IsBodyLimit s h =
      let (good, same) =
        limit_in_range_parts (if is_empty s then default_response_body_limit else s) _ refl h in
      subst (λ u. IsBodyLimit u × (check_body_limit lib u ≡ ok u)) same
        (good, check_body_limit-of _ (limit_full s) good)
