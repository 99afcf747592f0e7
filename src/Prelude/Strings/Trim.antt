-- ===== src/Prelude/Strings/Trim.antt =====
-- strings.TrimSpace changes nothing in a text that is trimmed.
use mathlib.Core.Path.{◌≡◌, refl, sym, ◌∙◌, ap}
use mathlib.Core.Logic.{inl, inr}
use mathlib.Core.Bool.{false}
use mathlib.Core.List.{[], ◌∷◌, ◌++◌, reverse, reverse-cons, reverse-append, reverse-reverse}
use daegsa.Prelude.Tests.{Bool-cases}
use daegsa.Prelude.Text.{Text}
use daegsa.Prelude.Strings.{Unicode, is_space, trim_left, trim_space}

module _ (unicode : Unicode) where
  trim_left_again : (s : Text) → trim_left unicode (trim_left unicode s) ≡ trim_left unicode s
  trim_left_again [] = refl
  trim_left_again (c ∷ s) = elim (Bool-cases (is_space unicode c)) [
    | inl e ↦ rw e (trim_left_again s)
    | inr e ↦ rw (e, e) refl
  ]

  -- A text is blank, or begins with no space once it is trimmed on the left.
  data Trimmed : Text → Type 0 where
    blank : Trimmed []
    starts : (c : _) (s : Text) → is_space unicode c ≡ false → Trimmed (c ∷ s)

  Trimmed-of : (s : Text) → Trimmed (trim_left unicode s)
  Trimmed-of [] = blank
  Trimmed-of (c ∷ s) = elim (Bool-cases (is_space unicode c)) [
    | inl e ↦ rw e (Trimmed-of s)
    | inr e ↦ rw e (starts c s e)
  ]

  abbrev trim_right : Text → Text
  trim_right s = reverse (trim_left unicode (reverse s))

  trim_left-snoc :
      (c : _) (s : Text)
      → is_space unicode c ≡ false
      → trim_left unicode (s ++ c ∷ []) ≡ trim_left unicode s ++ c ∷ []
  trim_left-snoc c [] e = rw e refl
  trim_left-snoc c (d ∷ s) e = elim (Bool-cases (is_space unicode d)) [
    | inl f ↦ rw f (trim_left-snoc c s e)
    | inr f ↦ rw f refl
  ]

  trim_right-cons :
      (c : _) (s : Text) → is_space unicode c ≡ false → trim_right (c ∷ s) ≡ c ∷ trim_right s
  trim_right-cons c s e =
      ap (λ r. reverse (trim_left unicode r)) (reverse-cons c s)
      ∙ (ap reverse (trim_left-snoc c (reverse s) e)
          ∙ reverse-append (trim_left unicode (reverse s)) (c ∷ []))

  trim_right_again : (s : Text) → trim_right (trim_right s) ≡ trim_right s
  trim_right_again s =
      ap (λ r. reverse (trim_left unicode r)) (reverse-reverse (trim_left unicode (reverse s)))
      ∙ ap reverse (trim_left_again (reverse s))

  trim_right-Trimmed : (s : Text) → Trimmed s → trim_left unicode (trim_right s) ≡ trim_right s
  trim_right-Trimmed _ blank = refl
  trim_right-Trimmed _ (starts c s e) =
      ap (trim_left unicode) (trim_right-cons c s e)
      ∙ (keep (trim_right s) ∙ sym (trim_right-cons c s e))
    where
      keep : (t : Text) → trim_left unicode (c ∷ t) ≡ c ∷ t
      keep t = rw e refl

  pub trim_space_again :
      (s : Text) → trim_space unicode (trim_space unicode s) ≡ trim_space unicode s
  trim_space_again s =
      ap trim_right (trim_right-Trimmed (trim_left unicode s) (Trimmed-of s))
      ∙ trim_right_again (trim_left unicode s)
