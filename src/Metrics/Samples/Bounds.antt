-- ===== src/Metrics/Samples/Bounds.antt =====
-- The lists of samples stay short and free of repetitions.
use daegsa.Prelude.{
  ℕ, suc, ◌≤◌, Bool, false, List, [], ◌∷◌, ◌++◌, map, Option, none, some, ◌≡◌, inl, inr, refl, ap,
  subst, arith, ◌&&◌, not, ltb, length, length-append, length-take-le, any, Bool-cases, some_inj,
}
use daegsa.Prelude.Text.{Text, text_eq}
use daegsa.Metrics.Samples.{
  ErrorSample, max_error_samples, max_rate_limit_samples, same_error, add_to_sample, prepend,
  insert_sample, merge_error_sample, record_error_sample, clean_message, keep_sample, keep_samples,
  max_error_message_length,
}

-- No element is the same as an earlier one.
abbrev pub Distinct {ℓ} : {A : Type ℓ} → (A → A → Bool) → List A → Type 0
Distinct same [] = Unit
Distinct same (x ∷ xs) = (any (λ y. same x y) xs ≡ false) × Distinct same xs

any-snoc {ℓ} :
    {A : Type ℓ} (p : A → Bool) (l : List A) (v : A)
    → any p l ≡ false
    → p v ≡ false
    → any p (l ++ v ∷ []) ≡ false
any-snoc p [] v h k = ground arith
any-snoc p (x ∷ l) v h k = ground (arith, any-snoc p l v)

Distinct-snoc {ℓ} :
    {A : Type ℓ} (same : A → A → Bool) (l : List A) (v : A)
    → Distinct same l
    → any (λ s. same s v) l ≡ false
    → Distinct same (l ++ v ∷ [])
Distinct-snoc same [] v d h = (refl, tt)
Distinct-snoc same (x ∷ l) v d h =
    (any-snoc (λ y. same x y) l v d.0 (ground arith), Distinct-snoc same l v d.1 (ground arith))

-- The shape of a list of at most `cap` samples.
pub record IsSampleList {ℓ} {A : Type ℓ} (same : A → A → Bool) (cap : ℕ) (l : List A) : Type 0 where
  pub short : length l ≤ cap
  pub distinct : Distinct same l

pub keep_sample-IsSampleList {ℓ} :
    {A : Type ℓ} (same : A → A → Bool) (v : A) (l : List A)
    → IsSampleList same max_rate_limit_samples l
    → IsSampleList same max_rate_limit_samples (keep_sample same v l)
unfolding keep_sample
keep_sample-IsSampleList same v l h =
    elim (Bool-cases (ltb (length l) max_rate_limit_samples && not (any (λ s. same s v) l))) [
      | inl room ↦ rw room (record {
        short = ground (arith, length-append l (v ∷ []));
        distinct = Distinct-snoc same l v h.distinct (ground arith);
      })
      | inr full ↦ rw full h
    ]

-- Keeping any samples leaves at most ten, no two of them the same.
pub keep_samples-IsSampleList {ℓ} :
    {A : Type ℓ} (same : A → A → Bool) (vs l : List A)
    → IsSampleList same max_rate_limit_samples l
    → IsSampleList same max_rate_limit_samples (keep_samples same vs l)
unfolding keep_samples
keep_samples-IsSampleList same [] l h = h
keep_samples-IsSampleList same (v ∷ vs) l h =
    keep_samples-IsSampleList same vs (keep_sample same v l) (keep_sample-IsSampleList same v l h)

abbrev key : ErrorSample → Text × Text
key s = (s.message, s.class)

abbrev pub same_key : Text × Text → Text × Text → Bool
same_key a b = text_eq a.0 b.0 && text_eq a.1 b.1

-- Samples are told apart by their message and class.
abbrev pub IsErrorList : List ErrorSample → Type 0
IsErrorList l = IsSampleList same_key max_error_samples (map key l)

prepend-keys :
    (s : ErrorSample) (l : List ErrorSample) (o : Option (List ErrorSample)) {l' : List ErrorSample}
    → ((t : List ErrorSample) → o ≡ some t → map key t ≡ map key l)
    → prepend s o ≡ some l'
    → map key l' ≡ key s ∷ map key l
prepend-keys s l none ih h = cc
prepend-keys s l (some t) ih h =
    subst (λ t. map key t ≡ key s ∷ map key l) (some_inj h) (ap (λ k. key s ∷ k) (ih t refl))

prepend-none : (s : ErrorSample) (o : Option (List ErrorSample)) → prepend s o ≡ none → o ≡ none
prepend-none s none h = refl
prepend-none s (some t) h = cc

some≢none : {l : List ErrorSample} → ¬ (◌≡◌ {A = Option (List ErrorSample)} (some l) none)
some≢none h = cc

add_to_sample-keys :
    (m c : Text) (n : ℕ) (l : List ErrorSample) {l' : List ErrorSample}
    → add_to_sample m c n l ≡ some l'
    → map key l' ≡ map key l
unfolding add_to_sample
add_to_sample-keys m c n [] h = cc
add_to_sample-keys m c n (s ∷ l) {l' = l'} h = elim (Bool-cases (same_error m c s)) [
  | inl here ↦
      subst (λ (t : List ErrorSample). map key t ≡ key s ∷ map key l) (some_inj (rw here at h)) refl
  | inr there ↦ prepend-keys s l _ (λ t e. add_to_sample-keys m c n l e) (rw there at h)
]

add_to_sample-none :
    (m c : Text) (n : ℕ) (l : List ErrorSample)
    → add_to_sample m c n l ≡ none
    → any (λ k. same_key k (m, c)) (map key l) ≡ false
unfolding add_to_sample
add_to_sample-none m c n [] h = refl
add_to_sample-none m c n (s ∷ l) h = elim (Bool-cases (same_error m c s)) [
  | inl here ↦ absurd (some≢none (rw here at h))
  | inr there ↦ rw there (add_to_sample-none m c n l (prepend-none s _ (rw there at h)))
]

map-append_one :
    (l : List ErrorSample) (s : ErrorSample) → map key (l ++ s ∷ []) ≡ map key l ++ key s ∷ []
map-append_one [] s = refl
map-append_one (x ∷ l) s = ap (λ k. key x ∷ k) (map-append_one l s)

length-map-key : (l : List ErrorSample) → length (map key l) ≡ length l
length-map-key [] = refl
length-map-key (x ∷ l) = ap suc (length-map-key l)

insert_sample-IsErrorList :
    (s : ErrorSample) (l : List ErrorSample) (o : Option (List ErrorSample))
    → add_to_sample s.message s.class s.count l ≡ o
    → IsErrorList l
    → IsErrorList (insert_sample s l o)
unfolding insert_sample
insert_sample-IsErrorList s l (some l') e h =
    rw (add_to_sample-keys s.message s.class s.count l e) h
insert_sample-IsErrorList s l none e h = elim (Bool-cases (ltb (length l) max_error_samples)) [
  | inl room ↦
      rw (room, map-append_one)
        (record {
          short = ground (arith, length-append (map key l) (key s ∷ []), length-map-key l);
          distinct =
              Distinct-snoc same_key (map key l) (key s) h.distinct
                (add_to_sample-none s.message s.class s.count l e);
        })
  | inr full ↦ rw full h
]

-- Merging an error sample into a list leaves at most ten samples, no two of which share their
-- message and class.
pub merge_error_sample-IsErrorList :
    (s : ErrorSample) (l : List ErrorSample) → IsErrorList l → IsErrorList (merge_error_sample s l)
unfolding merge_error_sample
merge_error_sample-IsErrorList s l h = insert_sample-IsErrorList s l _ refl h

short_enough : (b : ℕ) → ltb 256 b ≡ false → b ≤ 259
short_enough b h = ground arith

-- A recorded message takes at most 259 bytes: 256 of the error's, and three dots.
pub clean_message-length :
    (trim : Text → Text) (message : Text) → length (clean_message trim message) ≤ 259
unfolding clean_message
clean_message-length trim message =
    elim (Bool-cases (ltb max_error_message_length (length (trim message)))) [
      | inl long ↦
          rw (long, length-append)
            (omega (arith, length-take-le max_error_message_length (trim message)))
      | inr short ↦ rw short (short_enough _ short)
    ]

pub record_error_sample-IsErrorList :
    (trim : Text → Text) (message class : Text) (l : List ErrorSample)
    → IsErrorList l
    → IsErrorList (record_error_sample trim message class l)
unfolding record_error_sample
record_error_sample-IsErrorList trim message class l h = merge_error_sample-IsErrorList _ l h
