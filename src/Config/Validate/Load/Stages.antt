-- ===== src/Config/Validate/Load/Stages.antt =====
-- The order of the stages that validateProfileSegments of internal/config/validate.go accepts: the
-- ranks do not fall, which is to say warmups, then measured segments, then cooldowns.
use daegsa.Prelude.{
  ℕ, Bool, true, false, List, [], ◌∷◌, some, ◌≡◌, ◌≤◌, ◌⊎◌, inl, inr, refl, arith, any, Bool-cases,
  some_inj, subst, or_left, or_right,
}
use daegsa.Prelude.Text.{Text, text_eq, text_eq_sound, text_eq_complete}
use daegsa.Profile.Types.{stage_warmup, stage_measured, stage_cooldown}
use daegsa.Config.Validate.Load.{stage_rank}

data Ranked (stage : Text) : ℕ → Type 0 where
  warmup : stage ≡ stage_warmup → Ranked stage 0
  measured : stage ≡ stage_measured → Ranked stage 1
  cooldown : stage ≡ stage_cooldown → Ranked stage 2

Ranked-of : (stage : Text) {r : ℕ} → stage_rank stage ≡ some r → Ranked stage r
unfolding stage_rank
Ranked-of stage {r} h = elim (Bool-cases (text_eq stage stage_warmup)) [
  | inl e ↦
      subst (Ranked stage) (some_inj (rw e at h)) (warmup (text_eq_sound stage stage_warmup e))
  | inr e ↦ elim (Bool-cases (text_eq stage stage_measured)) [
    | inl m ↦
        subst (Ranked stage) (some_inj (rw (e, m) at h))
          (measured (text_eq_sound stage stage_measured m))
    | inr m ↦ elim (Bool-cases (text_eq stage stage_cooldown)) [
      | inl c ↦
          subst (Ranked stage) (some_inj (rw (e, m, c) at h))
            (cooldown (text_eq_sound stage stage_cooldown c))
      | inr c ↦ cc (rw (e, m, c) at h)
    ]
  ]
]

rank_warmup : stage_rank stage_warmup ≡ some 0
unfolding stage_rank
rank_warmup = refl

rank_measured : stage_rank stage_measured ≡ some 1
unfolding stage_rank
rank_measured = refl

rank_cooldown : stage_rank stage_cooldown ≡ some 2
unfolding stage_rank
rank_cooldown = refl

-- The ranks of the stages after the rank that is given.
abbrev pub RanksRise : ℕ → List Text → Type 0
RanksRise previous [] = Unit
RanksRise previous (s ∷ l) = (r : ℕ) × (stage_rank s ≡ some r) × (previous ≤ r) × RanksRise r l

abbrev pub AreCooldowns : List Text → Type 0
AreCooldowns [] = Unit
AreCooldowns (s ∷ l) = (s ≡ stage_cooldown) × AreCooldowns l

-- Measured segments, then cooldowns.
abbrev pub MayCoolDown : List Text → Type 0
MayCoolDown [] = Unit
MayCoolDown (s ∷ l) =
    ((s ≡ stage_measured) × MayCoolDown l) ⊎ ((s ≡ stage_cooldown) × AreCooldowns l)

-- Warmups, then one measured segment or more, then cooldowns.
abbrev pub AreStaged : List Text → Type 0
AreStaged [] = ⊥
AreStaged (s ∷ l) = ((s ≡ stage_warmup) × AreStaged l) ⊎ ((s ≡ stage_measured) × MayCoolDown l)

abbrev pub has_measured_stage : List Text → Bool
has_measured_stage l = any (λ s. text_eq s stage_measured) l

cooldowns : (l : List Text) → RanksRise 2 l → AreCooldowns l
cooldowns [] h = tt
cooldowns (s ∷ l) (r, e, up, rest) = go r (Ranked-of s e) up rest (cooldowns l)
  where
    go :
        (r : ℕ)
        → Ranked s r
        → 2 ≤ r
        → RanksRise r l
        → (RanksRise 2 l → AreCooldowns l)
        → AreCooldowns (s ∷ l)
    go _ (warmup q) up rest ih = absurd (omega (arith, up))
    go _ (measured q) up rest ih = absurd (omega (arith, up))
    go _ (cooldown q) up rest ih = (q, ih rest)

MayCoolDown-of : (l : List Text) → RanksRise 1 l → MayCoolDown l
MayCoolDown-of [] h = tt
MayCoolDown-of (s ∷ l) (r, e, up, rest) = go r (Ranked-of s e) up rest (MayCoolDown-of l)
  where
    go :
        (r : ℕ)
        → Ranked s r
        → 1 ≤ r
        → RanksRise r l
        → (RanksRise 1 l → MayCoolDown l)
        → MayCoolDown (s ∷ l)
    go _ (warmup q) up rest ih = absurd (omega (arith, up))
    go _ (measured q) up rest ih = inl (q, ih rest)
    go _ (cooldown q) up rest ih = inr (q, cooldowns l rest)

cooldowns_unmeasured : (l : List Text) → AreCooldowns l → has_measured_stage l ≡ false
cooldowns_unmeasured [] h = refl
cooldowns_unmeasured (s ∷ l) (q, h) = rw q (cooldowns_unmeasured l h)

pub AreStaged-of : (l : List Text) → RanksRise 0 l → has_measured_stage l ≡ true → AreStaged l
AreStaged-of [] h m = cc
AreStaged-of (s ∷ l) (r, e, up, rest) m = go r (Ranked-of s e) rest m (AreStaged-of l)
  where
    go :
        (r : ℕ)
        → Ranked s r
        → RanksRise r l
        → has_measured_stage (s ∷ l) ≡ true
        → (RanksRise 0 l → has_measured_stage l ≡ true → AreStaged l)
        → AreStaged (s ∷ l)
    go _ (warmup q) rest m ih = inl (q, ih rest (rw q at m))
    go _ (measured q) rest m ih = inr (q, MayCoolDown-of l rest)
    go _ (cooldown q) rest m ih = cc (cooldowns_unmeasured (s ∷ l) (q, cooldowns l rest))

-- The other way.
cooldowns-rise : (l : List Text) → AreCooldowns l → RanksRise 2 l
cooldowns-rise [] h = tt
cooldowns-rise (s ∷ l) (q, h) = (2, rw q rank_cooldown, omega arith, cooldowns-rise l h)

MayCoolDown-rise : (l : List Text) → MayCoolDown l → RanksRise 1 l
MayCoolDown-rise [] h = tt
MayCoolDown-rise (s ∷ l) (inl (q, h)) = (1, rw q rank_measured, omega arith, MayCoolDown-rise l h)
MayCoolDown-rise (s ∷ l) (inr (q, h)) = (2, rw q rank_cooldown, omega arith, cooldowns-rise l h)

pub AreStaged-rise : (l : List Text) → AreStaged l → RanksRise 0 l × (has_measured_stage l ≡ true)
AreStaged-rise [] h = elim h [ ]
AreStaged-rise (s ∷ l) (inl (q, h)) =
    let (rise, m) = AreStaged-rise l h in ((0, rw q rank_warmup, omega arith, rise), or_right _ _ m)
AreStaged-rise (s ∷ l) (inr (q, h)) = (
  (1, rw q rank_measured, omega arith, MayCoolDown-rise l h),
  or_left _ _ (text_eq_complete s stage_measured q),
)
