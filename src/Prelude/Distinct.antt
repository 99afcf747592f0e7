-- ===== src/Prelude/Distinct.antt =====
-- Lists of texts in which none stands twice, and the loops that find a repetition by the texts that
-- they have seen.
use mathlib.Core.Path.{◌≡◌, refl}
use mathlib.Core.Logic.{◌≢◌, inl, inr}
use mathlib.Core.Bool.{false}
use mathlib.Core.List.{List, [], ◌∷◌}
use daegsa.Prelude.Tests.{Bool-cases}
use daegsa.Prelude.Lists.{any, All}
use daegsa.Prelude.Text.{Text, text_eq, text_eq_sound, text_eq_complete}

abbrev pub AreDistinct : List Text → Type 0
AreDistinct [] = Unit
AreDistinct (t ∷ l) = All (λ u. t ≢ u) l × AreDistinct l

-- Every text of the second list is new where it stands, after those of the first.
abbrev pub AreNew : List Text → List Text → Type 0
AreNew seen [] = Unit
AreNew seen (t ∷ l) = All (λ u. u ≢ t) seen × AreNew (t ∷ seen) l

pub any_absent :
    (t : Text) (seen : List Text) → any (λ u. text_eq u t) seen ≡ false → All (λ u. u ≢ t) seen
any_absent t [] h = tt
any_absent t (u ∷ seen) h = elim (Bool-cases (text_eq u t)) [
  | inl e ↦ cc
  | inr e ↦ (λ q. cc (text_eq_complete u t q), any_absent t seen (rw e at h))
]

pub absent_any :
    (t : Text) (seen : List Text) → All (λ u. u ≢ t) seen → any (λ u. text_eq u t) seen ≡ false
absent_any t [] h = refl
absent_any t (u ∷ seen) h = elim (Bool-cases (text_eq u t)) [
  | inl e ↦ elim (h.0 (text_eq_sound u t e)) [ ]
  | inr e ↦ rw e (absent_any t seen h.1)
]

AreNew-parts :
    (seen l : List Text) → AreNew seen l → All (λ t. All (λ u. u ≢ t) seen) l × AreDistinct l
AreNew-parts seen [] h = (tt, tt)
AreNew-parts seen (t ∷ l) h =
    let (new, distinct) = AreNew-parts (t ∷ seen) l h.1 in
    ((h.0, after l new), (first l new, distinct))
  where
    after :
        (l : List Text)
        → All (λ u. All (λ w. w ≢ u) (t ∷ seen)) l
        → All (λ u. All (λ w. w ≢ u) seen) l
    after [] h = tt
    after (u ∷ l) h = (h.0.1, after l h.1)

    first : (l : List Text) → All (λ u. All (λ w. w ≢ u) (t ∷ seen)) l → All (λ u. t ≢ u) l
    first [] h = tt
    first (u ∷ l) h = (h.0.0, first l h.1)

parts-AreNew :
    (seen l : List Text) → All (λ t. All (λ u. u ≢ t) seen) l → AreDistinct l → AreNew seen l
parts-AreNew seen [] h d = tt
parts-AreNew seen (t ∷ l) h d = (h.0, parts-AreNew (t ∷ seen) l (both l d.0 h.1) d.1)
  where
    both :
        (l : List Text)
        → All (λ u. t ≢ u) l
        → All (λ u. All (λ w. w ≢ u) seen) l
        → All (λ u. All (λ w. w ≢ u) (t ∷ seen)) l
    both [] a b = tt
    both (u ∷ l) a b = ((a.0, b.0), both l a.1 b.1)

nothing_seen : (l : List Text) → All (λ t. All (λ u. u ≢ t) []) l
nothing_seen [] = tt
nothing_seen (t ∷ l) = (tt, nothing_seen l)

-- From the start of the loop, to be new is to be distinct.
pub AreNew-AreDistinct : (l : List Text) → AreNew [] l → AreDistinct l
AreNew-AreDistinct l h = let (new, distinct) = AreNew-parts [] l h in distinct

pub AreDistinct-AreNew : (l : List Text) → AreDistinct l → AreNew [] l
AreDistinct-AreNew l d = parts-AreNew [] l (nothing_seen l) d
