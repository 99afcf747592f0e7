-- ===== src/Profile/Compile/Offsets.antt =====
-- The segments of a compiled profile follow one another with no gap, from 0 to the total duration.
use daegsa.Prelude.{
  ℕ, zero, suc, ◌+◌, List, [], ◌∷◌, ◌++◌, ◌≡◌, refl, sym, ap, ◌∙◌, subst, arith, length,
  length-append, ltb, ◌==◌, ◌||◌,
}
use daegsa.Prelude.Int.{
  ℤ, pos, pos_part, leb_ℤ, ◌+ℤ◌, ◌-ℤ◌, ◌≤ℤ◌, ◌<ℤ◌, +ℤ_parts, -ℤ_parts, quot, rem,
}
use daegsa.Prelude.Word.{max_i64, wrap64, wrap64_id, InI64}
use daegsa.Prelude.Float.{Floats, seconds}
use daegsa.Prelude.Result.{ok, ◌>>=◌, ok_parts, ok-injective, unless_err}
use daegsa.Profile.Types.{
  SourceSegment, Segment, Compilation, max_compiled_segments, max_source_segments,
}
use daegsa.Profile.Compile.{
  Progress, compile_step, compile_steps, compile_source, compile_sources, compile, start, finish,
  emit, step_duration, step_rate, effective_steps,
}

-- A sum that passed the overflow test is in range.
in_range : (a d : ℤ) → pos 0 ≤ℤ a → pos 0 <ℤ d → a ≤ℤ pos max_i64 -ℤ d → InI64 (a +ℤ d)
in_range a d ha hd h = omega (arith, +ℤ_parts a d, -ℤ_parts (pos max_i64) d)

module _ (floats : Floats) where
  -- The segments of the list run from `a` to `b`, each for a positive time.
  abbrev pub Covers : ℤ → List (Segment floats) → ℤ → Type 0
  Covers a [] b = a ≡ b
  Covers a (s ∷ l) b =
      (s.start_offset ≡ a)
      × (s.end_offset ≡ a +ℤ s.duration)
      × (pos 0 <ℤ s.duration)
      × Covers s.end_offset l b

  -- The segments carry their positions, from `n` on.
  abbrev pub Numbered : ℕ → List (Segment floats) → Type 0
  Numbered n [] = Unit
  Numbered n (s ∷ l) = (s.index ≡ n) × Numbered (suc n) l

  Covers-snoc :
      (a b : ℤ) (l : List (Segment floats)) (s : Segment floats)
      → Covers a l b
      → s.start_offset ≡ b
      → s.end_offset ≡ b +ℤ s.duration
      → pos 0 <ℤ s.duration
      → Covers a (l ++ s ∷ []) s.end_offset
  Covers-snoc a b [] s c hs he hd = (hs ∙ sym c, he ∙ ap (λ x. x +ℤ s.duration) (sym c), hd, refl)
  Covers-snoc a b (t ∷ l) s c hs he hd =
      (c.0, c.1, c.2, Covers-snoc t.end_offset b l s c.3 hs he hd)

  Numbered-snoc :
      (n : ℕ) (l : List (Segment floats)) (s : Segment floats)
      → Numbered n l
      → s.index ≡ n + length l
      → Numbered n (l ++ s ∷ [])
  Numbered-snoc n [] s c h = (omega arith, tt)
  Numbered-snoc n (t ∷ l) s c h = (c.0, Numbered-snoc (suc n) l s c.1 (omega arith))

  -- What holds of the variables between two rounds.
  pub record IsLaidOut (p : Progress floats) : Type 0 where
    pub covers : Covers (pos 0) p.compiled p.offset
    pub nonneg : pos 0 ≤ℤ p.offset
    pub fits : p.offset ≤ℤ pos max_i64
    pub numbered : Numbered 0 p.compiled

  module _ (time_unit : ℤ) (segment : SourceSegment floats) (steps base remainder : ℤ) where
    -- A round that succeeds has a positive duration that does not overflow the offset, and emits.
    pub compile_step-ok :
        (step : ℕ) (p : Progress floats) {p' : Progress floats}
        → compile_step floats time_unit segment steps base remainder step p ≡ ok p'
        → let d = step_duration floats base remainder step in
          let rate = step_rate floats segment steps step in
          (pos 0 <ℤ d)
          × (p.offset ≤ℤ pos max_i64 -ℤ d)
          × (emit floats segment steps step d rate (floats.div rate (seconds floats time_unit)) p
              ≡ p')
    unfolding compile_step
    compile_step-ok step p h = ground arith

    pub compile_step-IsLaidOut :
        (step : ℕ) (p : Progress floats) {p' : Progress floats}
        → IsLaidOut p
        → compile_step floats time_unit segment steps base remainder step p ≡ ok p'
        → IsLaidOut p'
    unfolding emit
    compile_step-IsLaidOut step p {p' = p'} h e =
        let (dpos, room, eq) = compile_step-ok step p e in
        let d = step_duration floats base remainder step in
        let exact : wrap64 (p.offset +ℤ d) ≡ p.offset +ℤ d =
          wrap64_id _ (in_range p.offset d h.nonneg dpos room) in
        subst IsLaidOut eq (record {
          covers = Covers-snoc (pos 0) p.offset p.compiled _ h.covers refl exact dpos;
          nonneg = rw exact (omega (arith, +ℤ_parts p.offset d, h.nonneg, dpos));
          fits = rw exact (in_range p.offset d h.nonneg dpos room).1;
          numbered = Numbered-snoc 0 p.compiled _ h.numbered (omega arith);
        })

    -- A round moves the offset by its duration and appends one segment.
    pub compile_step-moves :
        (step : ℕ) (p : Progress floats) {p' : Progress floats}
        → IsLaidOut p
        → compile_step floats time_unit segment steps base remainder step p ≡ ok p'
        → (p'.offset ≡ p.offset +ℤ step_duration floats base remainder step)
          × (length p'.compiled ≡ suc (length p.compiled))
    unfolding emit
    compile_step-moves step p {p' = p'} h e =
        let (dpos, room, eq) = compile_step-ok step p e in
        subst
          (λ (q : Progress floats).
            (q.offset ≡ p.offset +ℤ step_duration floats base remainder step)
            × (length q.compiled ≡ suc (length p.compiled)))
          eq
          (
            wrap64_id _ (in_range p.offset _ h.nonneg dpos room),
            omega (arith, length-append p.compiled (_ ∷ [])),
          )

    pub compile_steps-keeps {ℓ} :
        (P : Progress floats → Type ℓ)
        → ((step : ℕ) (p p' : Progress floats)
            → P p
            → compile_step floats time_unit segment steps base remainder step p ≡ ok p'
            → P p')
        → (remaining step : ℕ) (p : Progress floats) {p' : Progress floats} → P p
        → compile_steps floats time_unit segment steps base remainder remaining step p ≡ ok p'
        → P p'
    unfolding compile_steps
    compile_steps-keeps P keep zero step p {p' = p'} h e = subst P (ok-injective e) h
    compile_steps-keeps P keep (suc n) step p h e =
        let (q, e1, e2) = ok_parts _ e in
        compile_steps-keeps P keep n (step + 1) q (keep step p q h e1) e2

  -- A source segment that compiles passed the bound, and its rounds succeeded.
  pub compile_source-ok :
      (time_unit : ℤ) (segment : SourceSegment floats) (p : Progress floats) {p' : Progress floats}
      → compile_source floats time_unit segment p ≡ ok p'
      → let steps = effective_steps floats segment in
        (wrap64 (pos (length p.compiled) +ℤ steps) ≤ℤ pos max_compiled_segments)
        × (compile_steps floats time_unit segment steps
              (wrap64 (quot segment.duration steps))
              (rem segment.duration steps)
              (pos_part steps)
              0
              p
            ≡ ok p')
  unfolding compile_source
  compile_source-ok time_unit segment p h = ground arith

  pub compile_source-IsLaidOut :
      (time_unit : ℤ) (segment : SourceSegment floats) (p : Progress floats) {p' : Progress floats}
      → IsLaidOut p
      → compile_source floats time_unit segment p ≡ ok p'
      → IsLaidOut p'
  compile_source-IsLaidOut time_unit segment p h e =
      let steps = effective_steps floats segment in
      compile_steps-keeps time_unit segment steps (wrap64 (quot segment.duration steps))
        (rem segment.duration steps) IsLaidOut
        (λ step p p' i r. compile_step-IsLaidOut time_unit segment steps _ _ step p i r)
        (pos_part steps) 0 p h (compile_source-ok time_unit segment p e).1

  pub compile_sources-keeps {ℓ} :
      (P : Progress floats → Type ℓ) (time_unit : ℤ)
      → ((segment : SourceSegment floats) (p p' : Progress floats)
          → P p
          → compile_source floats time_unit segment p ≡ ok p'
          → P p')
      → (source : List (SourceSegment floats)) (p : Progress floats) {p' : Progress floats} → P p
      → compile_sources floats time_unit source p ≡ ok p'
      → P p'
  unfolding compile_sources
  compile_sources-keeps P time_unit keep [] p h e = subst P (ok-injective e) h
  compile_sources-keeps P time_unit keep (s ∷ l) p h e =
      let (q, e1, e2) = ok_parts _ e in
      compile_sources-keeps P time_unit keep l q (keep s p q h e1) e2

  compile_bind :
      (source : List (SourceSegment floats)) (time_unit : ℤ) {c : Compilation floats}
      → compile floats source time_unit ≡ ok c
      → (compile_sources floats time_unit source (start floats) >>= λ p. ok (finish floats p))
        ≡ ok c
  unfolding compile
  compile_bind source time_unit h =
      unless_err (leb_ℤ time_unit (pos 0)) _
        (unless_err (length source == 0 || ltb max_source_segments (length source)) _ h)

  -- A compiled profile is what the outer loop leaves, within the bounds on its input.
  pub compile-ok :
      (source : List (SourceSegment floats)) (time_unit : ℤ) {c : Compilation floats}
      → compile floats source time_unit ≡ ok c
      → (p : Progress floats) × (compile_sources floats time_unit source (start floats) ≡ ok p)
        × (finish floats p ≡ c)
  compile-ok source time_unit {c} h =
      let (p, e1, e2) =
        ok_parts (compile_sources floats time_unit source (start floats))
          (compile_bind source time_unit h) in
      (p, e1, ok-injective e2)

  pub start-IsLaidOut : IsLaidOut (start floats)
  unfolding start
  start-IsLaidOut = record {
    covers = refl;
    nonneg = omega arith;
    fits = omega arith;
    numbered = tt;
  }

  -- The segments of a compiled profile are numbered from 0, follow one another with no gap from
  -- offset 0 to the total duration, each last a positive time, and the total fits an int64.
  pub compile-Covers :
      (source : List (SourceSegment floats)) (time_unit : ℤ) {c : Compilation floats}
      → compile floats source time_unit ≡ ok c
      → Covers (pos 0) c.segments c.total_duration
        × Numbered 0 c.segments
        × (pos 0 ≤ℤ c.total_duration)
        × (c.total_duration ≤ℤ pos max_i64)
  unfolding finish
  compile-Covers source time_unit h =
      let (p, e, eq) = compile-ok source time_unit h in
      let laid : IsLaidOut p =
        compile_sources-keeps IsLaidOut time_unit
          (λ segment p p' i r. compile_source-IsLaidOut time_unit segment p i r) source _
          start-IsLaidOut e in
      subst
        (λ (c : Compilation floats).
          Covers (pos 0) c.segments c.total_duration
          × Numbered 0 c.segments
          × (pos 0 ≤ℤ c.total_duration)
          × (c.total_duration ≤ℤ pos max_i64))
        eq (laid.covers, laid.numbered, laid.nonneg, laid.fits)
