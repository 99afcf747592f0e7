-- ===== src/Threshold/Parse/Spaces.antt =====
-- Trimming and splitting of a text without spaces.
use daegsa.Prelude.{
  ℕ, false, List, [], ◌∷◌, ◌≡◌, refl, sym, ap, ◌∙◌, subst, All, All-append, Bool-cases, inl, inr,
  ◌==◌,
}
use mathlib.Core.List.{reverse, reverse-cons, reverse-reverse}
use daegsa.Prelude.Text.{Text}
use daegsa.Prelude.Strings.{Unicode, is_space, trim_left, trim_space, split_on, push_front}

module _ (unicode : Unicode) where
  abbrev pub IsSpaceless : Text → Type 0
  IsSpaceless s = All (λ c. is_space unicode c ≡ false) s

  trim_left_lem : (s : Text) → IsSpaceless s → trim_left unicode s ≡ s
  trim_left_lem [] h = refl
  trim_left_lem (c ∷ s) h = rw h.0 refl

  reverse-IsSpaceless : (s : Text) → IsSpaceless s → IsSpaceless (reverse s)
  reverse-IsSpaceless [] h = tt
  reverse-IsSpaceless (c ∷ s) h =
      subst IsSpaceless (sym (reverse-cons c s))
        (All-append _ (reverse s) (c ∷ []) (reverse-IsSpaceless s h.1) (h.0, tt))

  pub trim_space_lem : (s : Text) → IsSpaceless s → trim_space unicode s ≡ s
  trim_space_lem s h =
      ap (λ u. reverse (trim_left unicode (reverse u))) (trim_left_lem s h)
      ∙ ap reverse (trim_left_lem (reverse s) (reverse-IsSpaceless s h))
      ∙ reverse-reverse s

  push_front-IsSpaceless :
      (c : ℕ) (parts : List Text)
      → is_space unicode c ≡ false
      → All IsSpaceless parts
      → All IsSpaceless (push_front c parts)
  push_front-IsSpaceless c [] h k = ((h, tt), tt)
  push_front-IsSpaceless c (p ∷ ps) h k = ((h, k.0), k.1)

  pub split_on-IsSpaceless : (d : ℕ) (s : Text) → IsSpaceless s → All IsSpaceless (split_on d s)
  split_on-IsSpaceless d [] h = (tt, tt)
  split_on-IsSpaceless d (c ∷ s) h = elim (Bool-cases (c == d)) [
    | inl e ↦ rw e (tt, split_on-IsSpaceless d s h.1)
    | inr e ↦ rw e (push_front-IsSpaceless c (split_on d s) h.0 (split_on-IsSpaceless d s h.1))
  ]
