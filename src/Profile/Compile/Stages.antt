-- ===== src/Profile/Compile/Stages.antt =====
-- The stages of the segments that Compile of internal/profile/compiler.go makes: each source segment
-- hands its stage to all of its steps, in order.
use daegsa.Prelude.{
  ℕ, zero, suc, ◌+◌, List, [], ◌∷◌, ◌++◌, map, ◌≡◌, refl, sym, ◌∙◌, ap, subst, append_assoc,
  append-nil,
}
use daegsa.Prelude.Int.{ℤ, pos_part}
use daegsa.Prelude.Float.{Floats}
use daegsa.Prelude.Text.{Text}
use daegsa.Prelude.Result.{ok, ok_parts, ok-injective}
use daegsa.Profile.Types.{SourceSegment, Segment, Compilation}
use daegsa.Profile.Compile.{
  Progress, compile_step, compile_steps, compile_source, compile_sources, compile, start, finish,
  emit, effective_steps,
}
use daegsa.Profile.Compile.Offsets.{compile_step-ok, compile_source-ok, compile-ok}

abbrev pub copies : ℕ → Text → List Text
copies zero t = []
copies (suc n) t = t ∷ copies n t

module _ (floats : Floats) where
  abbrev pub stages : List (Segment floats) → List Text
  stages l = map (λ (s : Segment floats). s.stage) l

  -- The stages of the steps of the source segments.
  abbrev pub step_stages : List (SourceSegment floats) → List Text
  step_stages [] = []
  step_stages (s ∷ l) = copies (pos_part (effective_steps floats s)) s.stage ++ step_stages l

  stages-snoc :
      (l : List (Segment floats)) (s : Segment floats)
      → stages (l ++ s ∷ []) ≡ stages l ++ s.stage ∷ []
  stages-snoc [] s = refl
  stages-snoc (x ∷ l) s = ap (λ t. x.stage ∷ t) (stages-snoc l s)

  step-stages :
      (time_unit : ℤ) (segment : SourceSegment floats) (steps base remainder : ℤ) (step : ℕ)
      (p : Progress floats) {p' : Progress floats}
      → compile_step floats time_unit segment steps base remainder step p ≡ ok p'
      → stages p'.compiled ≡ stages p.compiled ++ segment.stage ∷ []
  unfolding emit
  step-stages time_unit segment steps base remainder step p h =
      let (_, _, same) = compile_step-ok floats time_unit segment steps base remainder step p h in
      subst (λ (q : Progress floats). stages q.compiled ≡ stages p.compiled ++ segment.stage ∷ [])
        same (stages-snoc p.compiled _)

  steps-stages :
      (time_unit : ℤ) (segment : SourceSegment floats) (steps base remainder : ℤ) (n step : ℕ)
      (p : Progress floats) {p' : Progress floats}
      → compile_steps floats time_unit segment steps base remainder n step p ≡ ok p'
      → stages p'.compiled ≡ stages p.compiled ++ copies n segment.stage
  unfolding compile_steps
  steps-stages time_unit segment steps base remainder zero step p h =
      ap (λ (q : Progress floats). stages q.compiled) (sym (ok-injective h))
      ∙ sym (append-nil (stages p.compiled))
  steps-stages time_unit segment steps base remainder (suc n) step p h =
      let (q, first, rest) =
        ok_parts (compile_step floats time_unit segment steps base remainder step p) h in
      steps-stages time_unit segment steps base remainder n (step + 1) q rest
      ∙ (ap (λ l. l ++ copies n segment.stage)
            (step-stages time_unit segment steps base remainder step p first)
          ∙ append_assoc (stages p.compiled) (segment.stage ∷ []) (copies n segment.stage))

  sources-stages :
      (time_unit : ℤ) (source : List (SourceSegment floats)) (p : Progress floats)
      {p' : Progress floats}
      → compile_sources floats time_unit source p ≡ ok p'
      → stages p'.compiled ≡ stages p.compiled ++ step_stages source
  unfolding compile_sources
  sources-stages time_unit [] p h =
      ap (λ (q : Progress floats). stages q.compiled) (sym (ok-injective h))
      ∙ sym (append-nil (stages p.compiled))
  sources-stages time_unit (s ∷ l) p h =
      let (q, first, rest) = ok_parts (compile_source floats time_unit s p) h in
      let (_, steps) = compile_source-ok floats time_unit s p first in
      sources-stages time_unit l q rest
      ∙ (ap (λ k. k ++ step_stages l) (steps-stages time_unit s _ _ _ _ 0 p steps)
          ∙ append_assoc (stages p.compiled) (copies (pos_part (effective_steps floats s)) s.stage)
              (step_stages l))

  -- The stages of a compilation are those of its source segments, each as often as it has steps.
  pub compile-stages :
      (source : List (SourceSegment floats)) (time_unit : ℤ) {c : Compilation floats}
      → compile floats source time_unit ≡ ok c
      → stages c.segments ≡ step_stages source
  unfolding start finish
  compile-stages source time_unit h =
      let (p, e, same) = compile-ok floats source time_unit h in
      ap (λ (q : Compilation floats). stages q.segments) (sym same)
      ∙ sources-stages time_unit source (start floats) e
