-- ===== src/Profile/Compile.antt =====
-- internal/profile/compiler.go. Each loop of `Compile` is a function of its own over the slice built
-- so far, the offset and the peak; the inner one recurs on the steps that are left.
pub mod Offsets
pub mod Partition
pub mod Limit
pub mod Stages
use daegsa.Prelude.{
  ℕ, zero, suc, ◌+◌, ◌-◌, Bool, List, [], ◌∷◌, ◌++◌, ◌||◌, ltb, ◌==◌, if◌then◌else◌, length,
}
use daegsa.Prelude.Int.{ℤ, pos, pos_part, ◌+ℤ◌, ◌-ℤ◌, ltb_ℤ, leb_ℤ, eqb_ℤ, quot, rem}
use daegsa.Prelude.Word.{max_i64, wrap64}
use daegsa.Prelude.Float.{Floats, seconds}
use daegsa.Prelude.Text.{Text, codes, text_eq, itoa}
use daegsa.Prelude.Result.{Result, ok, err, ◌>>=◌}
use daegsa.Profile.Types.{
  SourceSegment, Segment, Compilation, stage_measured, max_source_segments, max_compiled_segments,
}

-- The messages behind ErrInvalidProfile; the texts are names of segments.
pub data ProfileError : Type 0 where
  source_count time_unit_not_positive compiled_count : ProfileError
  invalid_rate zero_interval invalid_duration : Text → ProfileError

module _ (floats : Floats) where
  open floats use {Float, of_int, add, sub, mul, div, lt, le, is_nan, is_inf, to_int64}

  -- The variables `compiled`, `offset` and `peakTargetRPS`.
  pub record Progress : Type 0 where
    pub compiled : List (Segment floats)
    pub offset : ℤ
    pub peak : Float

  abbrev milliseconds : ℤ → ℤ
  milliseconds d = quot d (pos 1_000_000)

  -- The share of step `step` in a duration divided into `steps`.
  pub step_duration : ℤ → ℤ → ℕ → ℤ
  step_duration base remainder step =
      if ltb_ℤ (pos step) remainder then wrap64 (base +ℤ pos 1) else base

  pub step_rate : SourceSegment floats → ℤ → ℕ → Float
  step_rate segment steps step =
      if ltb_ℤ (pos 1) steps
      then add segment.start_rate (
          div (mul (sub segment.end_rate segment.start_rate) (of_int (pos step)))
            (of_int (steps -ℤ pos 1)))
      else segment.rate

  pub step_name : SourceSegment floats → ℤ → ℕ → Text
  step_name segment steps step =
      if ltb_ℤ (pos 1) steps then segment.name ++ codes "-" ++ itoa (step + 1) else segment.name

  pub rate_is_invalid : Float → Float → Bool
  rate_is_invalid rate target_rps =
      le rate (of_int (pos 0)) || is_nan rate || is_inf rate || le target_rps (of_int (pos 0))

  -- The segment that one round appends, and the variables after it. With a positive duration the
  -- difference in the overflow test is in range.
  pub emit : SourceSegment floats → ℤ → ℕ → ℤ → Float → Float → Progress → Progress
  emit segment steps step duration rate target_rps p =
      let end_offset = wrap64 (p.offset +ℤ duration) in
      record {
        compiled =
            p.compiled
            ++ (record {
              index = length p.compiled;
              name = step_name segment steps step;
              stage = segment.stage;
              start_offset = p.offset;
              end_offset = end_offset;
              start_offset_ms = milliseconds p.offset;
              end_offset_ms = milliseconds end_offset;
              duration = duration;
              duration_ms = milliseconds duration;
              rate = rate;
              target_rps = target_rps;
              included_measured = text_eq segment.stage stage_measured;
            })
              ∷ [];
        offset = end_offset;
        peak = if lt p.peak target_rps then target_rps else p.peak;
      }

  -- One round of the inner loop.
  pub compile_step :
      ℤ → SourceSegment floats → ℤ → ℤ → ℤ → ℕ → Progress → Result ProfileError Progress
  compile_step time_unit segment steps base remainder step p =
      let duration = step_duration base remainder step in
      let rate = step_rate segment steps step in
      let target_rps = div rate (seconds floats time_unit) in
      if rate_is_invalid rate target_rps
      then err (invalid_rate segment.name)
      else if leb_ℤ (to_int64 (div (of_int time_unit) rate)) (pos 0)
      then err (zero_interval segment.name)
      else if leb_ℤ duration (pos 0) || ltb_ℤ (pos max_i64 -ℤ duration) p.offset
      then err (invalid_duration segment.name)
      else ok (emit segment steps step duration rate target_rps p)

  -- `remaining` rounds of the inner loop, from `step` on.
  pub compile_steps :
      ℤ → SourceSegment floats → ℤ → ℤ → ℤ → ℕ → ℕ → Progress → Result ProfileError Progress
  compile_steps time_unit segment steps base remainder zero step p = ok p
  compile_steps time_unit segment steps base remainder (suc remaining) step p = do
    p' ← compile_step time_unit segment steps base remainder step p
    compile_steps time_unit segment steps base remainder remaining (step + 1) p'

  -- No steps stand for one.
  unfoldable pub effective_steps : SourceSegment floats → ℤ
  effective_steps segment = if eqb_ℤ segment.steps (pos 0) then pos 1 else segment.steps

  -- One round of the outer loop.
  pub compile_source : ℤ → SourceSegment floats → Progress → Result ProfileError Progress
  compile_source time_unit segment p =
      let steps = effective_steps segment in
      if ltb_ℤ (pos max_compiled_segments) (wrap64 (pos (length p.compiled) +ℤ steps))
      then err compiled_count
      else compile_steps time_unit segment steps (wrap64 (quot segment.duration steps))
          (rem segment.duration steps) (pos_part steps) 0 p

  pub compile_sources : ℤ → List (SourceSegment floats) → Progress → Result ProfileError Progress
  compile_sources time_unit [] p = ok p
  compile_sources time_unit (segment ∷ rest) p = do
    p' ← compile_source time_unit segment p
    compile_sources time_unit rest p'

  pub start : Progress
  start = record { compiled = []; offset = pos 0; peak = of_int (pos 0) }

  pub finish : Progress → Compilation floats
  finish p = record { segments = p.compiled; total_duration = p.offset; peak_target_rps = p.peak }

  unfoldable pub compile :
      List (SourceSegment floats) → ℤ → Result ProfileError (Compilation floats)
  unfolding compile_sources compile_source compile_steps compile_step emit start finish step_rate
      step_name rate_is_invalid step_duration effective_steps
  compile source time_unit =
      if length source == 0 || ltb max_source_segments (length source)
      then err source_count
      else if leb_ℤ time_unit (pos 0)
      then err time_unit_not_positive
      else (compile_sources time_unit source start >>= λ p. ok (finish p))
