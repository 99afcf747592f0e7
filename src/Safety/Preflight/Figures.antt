-- ===== src/Safety/Preflight/Figures.antt =====
-- The figures that Check of internal/safety/preflight.go holds against its ceilings, and the hosts that
-- it looks up, said as conditions.
use daegsa.Prelude.{
  true, false, List, [], ◌∷◌, ◌≡◌, ◌⊎◌, inl, inr, refl, sym, arith, is_empty, any, All, Bool-cases,
  if◌then◌else◌, subst, ap,
}
use daegsa.Prelude.Int.{ℤ, pos, ltb_ℤ, ◌≤ℤ◌, ◌<ℤ◌}
use daegsa.Prelude.Float.{Floats, seconds}
use daegsa.Prelude.Text.{Text, text_eq, text_eq_sound}
use daegsa.Prelude.Result.{Result, ok, err, ok-injective}
use daegsa.Profile.Types.{Compilation}
use daegsa.Config.Types.{LoadConfig}
use daegsa.Config.Validate.{ConfigError, ConfigLibrary}
use daegsa.Config.Validate.Load.{compile_load_profile}
use daegsa.Safety.Preflight.{TargetEndpoint, unique_after, figures_of, figures}

module _ {floats : Floats} (lib : ConfigLibrary floats) where
  open floats use {Float, div}

  -- The rate of a load without segments: per second, where it has a unit of time.
  abbrev pub HasRate : LoadConfig floats → Float → Type 0
  HasRate load peak =
      ((pos 0 <ℤ load.time_unit) × (peak ≡ div load.rate (seconds floats load.time_unit)))
      ⊎ ((load.time_unit ≤ℤ pos 0) × (peak ≡ load.rate))

  -- The duration and the peak rate: those of the load, or those of its compiled segments.
  abbrev pub Measures : LoadConfig floats → ℤ → Float → Type 0
  Measures load duration peak =
      ((is_empty load.segments ≡ true) × (duration ≡ load.duration) × HasRate load peak)
      ⊎ ((is_empty load.segments ≡ false)
          × ((c : Compilation floats) × (compile_load_profile lib.hosts.unicode floats load ≡ ok c)
              × (duration ≡ c.total_duration)
              × (peak ≡ c.peak_target_rps)))

  rate_of :
      (load : LoadConfig floats)
      → HasRate load (
          if ltb_ℤ (pos 0) load.time_unit
          then div load.rate (seconds floats load.time_unit)
          else load.rate)
  rate_of load = elim (Bool-cases (ltb_ℤ (pos 0) load.time_unit)) [
    | inl e ↦ inl (ground (arith, e), rw e refl)
    | inr e ↦ inr (ground (arith, e), rw e refl)
  ]

  of_rate :
      (load : LoadConfig floats) {peak : Float}
      → HasRate load peak
      → (if ltb_ℤ (pos 0) load.time_unit
          then div load.rate (seconds floats load.time_unit)
          else load.rate)
        ≡ peak
  of_rate load (inl (h, e)) =
      let t : ltb_ℤ (pos 0) load.time_unit ≡ true = ground (arith, h) in rw t (sym e)
  of_rate load (inr (h, e)) =
      let t : ltb_ℤ (pos 0) load.time_unit ≡ false = ground (arith, h) in rw t (sym e)

  compiled_figures :
      (r : Result ConfigError (Compilation floats)) {duration : ℤ} {peak : Float}
      → figures_of lib r ≡ ok (duration, peak)
      → (c : Compilation floats) × (r ≡ ok c)
        × (duration ≡ c.total_duration)
        × (peak ≡ c.peak_target_rps)
  compiled_figures (err e) h = cc
  compiled_figures (ok c) h =
      let same = sym (ok-injective h) in (c, refl, ap (λ f. f.0) same, ap (λ f. f.1) same)

  pub figures-Measures :
      (load : LoadConfig floats) (duration : ℤ) (peak : Float)
      → figures lib load ≡ ok (duration, peak)
      → Measures load duration peak
  unfolding figures
  figures-Measures load duration peak h = elim (Bool-cases (is_empty load.segments)) [
    | inl e ↦
        let same = ok-injective (rw e at h) in
        inl (e, sym (ap (λ f. f.0) same), subst (HasRate load) (ap (λ f. f.1) same) (rate_of load))
    | inr e ↦
        inr (e, compiled_figures (compile_load_profile lib.hosts.unicode floats load) (rw e at h))
  ]

  pub Measures-figures :
      (load : LoadConfig floats) (duration : ℤ) (peak : Float)
      → Measures load duration peak
      → figures lib load ≡ ok (duration, peak)
  unfolding figures
  Measures-figures load duration peak (inl (e, d, r)) = rw (e, of_rate load r, d) refl
  Measures-figures load duration peak (inr (e, (c, q, d, r))) = rw (e, q, d, r) refl

-- The hosts that are looked up are those of the targets that have one.
module _ (P : Text → Type 0) where
  abbrev pub HostIs : TargetEndpoint → Type 0
  HostIs t = (is_empty t.host ≡ true) ⊎ P t.host

  seen_before :
      (host : Text) (seen : List Text) → All P seen → any (λ h. text_eq h host) seen ≡ true → P host
  seen_before host [] h e = cc
  seen_before host (s ∷ seen) (p, h) e = elim (Bool-cases (text_eq s host)) [
    | inl same ↦ subst P (text_eq_sound s host same) p
    | inr other ↦ seen_before host seen h (rw other at e)
  ]

  pub unique_after_sound :
      (seen : List Text) (l : List TargetEndpoint)
      → All P seen
      → All P (unique_after seen l)
      → All HostIs l
  unique_after_sound seen [] hs h = tt
  unique_after_sound seen (t ∷ l) hs h = elim (Bool-cases (is_empty t.host)) [
    | inl e ↦ (inl e, unique_after_sound seen l hs (rw e at h))
    | inr e ↦ elim (Bool-cases (any (λ h. text_eq h t.host) seen)) [
      | inl again ↦ (
        inr (seen_before t.host seen hs again),
        unique_after_sound seen l hs (rw (e, again) at h),
      )
      | inr fresh ↦
          let (p, rest) : P t.host × All P (unique_after (t.host ∷ seen) l) = rw (e, fresh) at h in
          (inr p, unique_after_sound (t.host ∷ seen) l (p, hs) rest)
    ]
  ]

  pub unique_after_complete :
      (seen : List Text) (l : List TargetEndpoint) → All HostIs l → All P (unique_after seen l)
  unique_after_complete seen [] h = tt
  unique_after_complete seen (t ∷ l) (first, h) = elim (Bool-cases (is_empty t.host)) [
    | inl e ↦ rw e (unique_after_complete seen l h)
    | inr e ↦ elim (Bool-cases (any (λ h. text_eq h t.host) seen)) [
      | inl again ↦ rw (e, again) (unique_after_complete seen l h)
      | inr fresh ↦
          rw (e, fresh)
            (
              elim first [ inl empty ↦ cc (empty, e) | inr p ↦ p ],
              unique_after_complete (t.host ∷ seen) l h,
            )
    ]
  ]
