-- ===== src/Config/Redact/Names.antt =====
-- IsSensitiveHeader of internal/config/redact.go: the names that hold one of nine words, which the
-- sixteen substrings of the source come down to.
use daegsa.Prelude.{
  Bool, true, List, [], ◌∷◌, ◌++◌, Option, none, some, ◌≡◌, ◌↔◌, ◌⊎◌, inl, inr, refl, sym, ap, ◌∙◌,
  arith, ◌||◌, ◌&&◌, any, all, append_assoc, Bool-cases, All, subst,
}
use daegsa.Prelude.Text.{
  Text, codes, contains, has_prefix, is_some, strip_prefix, strip_prefix_sound,
  strip_prefix_complete,
}
use daegsa.Prelude.Strings.{Unicode, to_lower, trim_space}
use daegsa.Config.Redact.{sensitive_header_substrings, is_sensitive_header}

-- The word stands somewhere in the text.
abbrev pub Occurs : Text → Text → Type 0
Occurs word s = (front : Text) × (back : Text) × (s ≡ front ++ (word ++ back))

abbrev pub secret_words : List Text
secret_words =
    codes "auth"
    ∷ codes "token"
    ∷ codes "secret"
    ∷ codes "cookie"
    ∷ codes "credential"
    ∷ codes "key"
    ∷ codes "password"
    ∷ codes "passwd"
    ∷ codes "session"
    ∷ []

-- One of the words stands in the text.
abbrev pub HoldsOne : List Text → Text → Type 0
HoldsOne [] s = ⊥
HoldsOne (word ∷ l) s = Occurs word s ⊎ HoldsOne l s

-- A name is secret when it holds a word, spaces around it and the case of its letters aside.
abbrev pub IsSecret : Unicode → Text → Type 0
IsSecret unicode name = HoldsOne secret_words (to_lower unicode (trim_space unicode name))

has_prefix_sound : (s p : Text) → has_prefix s p ≡ true → (back : Text) × (s ≡ p ++ back)
has_prefix_sound s p h = go (strip_prefix s p) refl h
  where
    go :
        (o : Option Text)
        → strip_prefix s p ≡ o
        → is_some o ≡ true
        → (back : Text) × (s ≡ p ++ back)
    go none e h = cc
    go (some r) e h = (r, strip_prefix_sound s p e)

contains_sound : (s p : Text) → contains s p ≡ true → Occurs p s
contains_sound [] p h = let (back, e) = has_prefix_sound [] p h in ([], back, e)
contains_sound (a ∷ s) p h = elim (Bool-cases (has_prefix (a ∷ s) p)) [
  | inl e ↦ let (back, q) = has_prefix_sound (a ∷ s) p e in ([], back, q)
  | inr e ↦
      let (front, back, q) = contains_sound s p (rw e at h) in (a ∷ front, back, ap (λ t. a ∷ t) q)
]

contains_prefix : (s p : Text) → has_prefix s p ≡ true → contains s p ≡ true
contains_prefix [] p h = h
contains_prefix (a ∷ s) p h = rw h refl

has_prefix-append : (p back : Text) → has_prefix (p ++ back) p ≡ true
has_prefix-append p back = rw (strip_prefix_complete p back) refl

contains_complete : (front p back : Text) → contains (front ++ (p ++ back)) p ≡ true
contains_complete [] p back = contains_prefix (p ++ back) p (has_prefix-append p back)
contains_complete (a ∷ front) p back = rw (contains_complete front p back) (or_true _)
  where
    or_true : (b : Bool) → (b || true) ≡ true
    or_true b = ground arith

-- What stands in a word stands where the word stands.
Occurs-inside : (a word b s : Text) → Occurs (a ++ (word ++ b)) s → Occurs word s
Occurs-inside a word b s (front, back, e) = (
  front ++ a,
  b ++ back,
  e
      ∙ (ap (λ t. front ++ t)
            (append_assoc a (word ++ b) back ∙ ap (λ t. a ++ t) (append_assoc word b back))
          ∙ sym (append_assoc front a (word ++ (b ++ back)))),
)

occurs_any : (l : List Text) (s : Text) → any (contains s) l ≡ true → HoldsOne l s
occurs_any [] s h = cc
occurs_any (word ∷ l) s h = elim (Bool-cases (contains s word)) [
  | inl e ↦ inl (contains_sound s word e)
  | inr e ↦ inr (occurs_any l s (rw e at h))
]

any_occurs : (l : List Text) (s : Text) → HoldsOne l s → any (contains s) l ≡ true
any_occurs [] s h = elim h [ ]
any_occurs (word ∷ l) s (inl (front, back, e)) = rw (e, contains_complete front word back) refl
any_occurs (word ∷ l) s (inr h) = ground (arith, any_occurs l s h)

HoldsOne-inside : (l : List Text) (w s : Text) → HoldsOne l w → Occurs w s → HoldsOne l s
HoldsOne-inside [] w s h o = elim h [ ]
HoldsOne-inside (word ∷ l) w s (inl (a, b, e)) o =
    inl (Occurs-inside a word b s (subst (λ t. Occurs t s) e o))
HoldsOne-inside (word ∷ l) w s (inr h) o = inr (HoldsOne-inside l w s h o)

HoldsOne-trans : (l m : List Text) (s : Text) → All (HoldsOne m) l → HoldsOne l s → HoldsOne m s
HoldsOne-trans [] m s h o = elim o [ ]
HoldsOne-trans (w ∷ l) m s (h, hs) (inl o) = HoldsOne-inside m w s h o
HoldsOne-trans (w ∷ l) m s (h, hs) (inr o) = HoldsOne-trans l m s hs o

both : (a b : Bool) → (a && b) ≡ true → (a ≡ true) × (b ≡ true)
both a b h = ground arith

-- Every text of a list holds a word when the search finds one in each.
all_hold : (m l : List Text) → all (λ w. any (contains w) m) l ≡ true → All (HoldsOne m) l
all_hold m [] h = tt
all_hold m (w ∷ l) h =
    let (first, rest) = both (any (contains w) m) _ h in (occurs_any m w first, all_hold m l rest)

substrings_hold : All (HoldsOne secret_words) sensitive_header_substrings
substrings_hold = all_hold secret_words sensitive_header_substrings refl

words_hold : All (HoldsOne sensitive_header_substrings) secret_words
words_hold = all_hold sensitive_header_substrings secret_words refl

pub is_sensitive_header-iff-IsSecret :
    (unicode : Unicode) (name : Text)
    → (is_sensitive_header unicode name ≡ true) ↔ IsSecret unicode name
unfolding is_sensitive_header
is_sensitive_header-iff-IsSecret unicode name =
    let s = to_lower unicode (trim_space unicode name) in
    (
      λ h.
          HoldsOne-trans sensitive_header_substrings secret_words s substrings_hold
            (occurs_any sensitive_header_substrings s h),
      λ h.
          any_occurs sensitive_header_substrings s
            (HoldsOne-trans secret_words sensitive_header_substrings s words_hold h),
    )
