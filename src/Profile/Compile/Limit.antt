-- ===== src/Profile/Compile/Limit.antt =====
-- The bound on the number of compiled segments, where the sum that the guard computes fits an int.
use daegsa.Prelude.{ℕ, ◌+◌, ◌≤◌, List, [], ◌∷◌, ◌≡◌, subst, arith, length, All}
use daegsa.Prelude.Int.{ℤ, pos, pos_part, ◌+ℤ◌, ◌≤ℤ◌, +ℤ_parts}
use daegsa.Prelude.Word.{max_i64, wrap64, wrap64_id, InI64}
use daegsa.Prelude.Float.{Floats}
use daegsa.Prelude.Result.{ok, ok_parts, ok-injective}
use daegsa.Profile.Types.{SourceSegment, Compilation, max_compiled_segments}
use daegsa.Profile.Compile.{Progress, compile_sources, compile, start, finish, effective_steps}
use daegsa.Profile.Compile.Offsets.{
  IsLaidOut, compile_source-ok, compile_source-IsLaidOut, compile-ok, start-IsLaidOut,
}
use daegsa.Profile.Compile.Partition.{compile_source-moves}

-- A sum that is in range and passes the guard is small.
small_sum :
    (n : ℕ) (steps : ℤ)
    → InI64 steps
    → pos_part steps + max_compiled_segments ≤ max_i64
    → n ≤ max_compiled_segments
    → wrap64 (pos n +ℤ steps) ≤ℤ pos max_compiled_segments
    → n + pos_part steps ≤ max_compiled_segments
small_sum n steps hi few hn guard =
    let exact : wrap64 (pos n +ℤ steps) ≡ pos n +ℤ steps =
      wrap64_id (pos n +ℤ steps) (omega (arith, +ℤ_parts (pos n) steps, hi, few, hn)) in
    let guard' = subst (λ z. z ≤ℤ pos max_compiled_segments) exact guard in
    ground (arith, +ℤ_parts (pos n) steps)

module _ (floats : Floats) where
  -- The values are those of an int64, and the steps leave room for the segments before them.
  pub record HasFewSteps (s : SourceSegment floats) : Type 0 where
    pub duration_fits : InI64 s.duration
    pub steps_fit : InI64 (effective_steps floats s)
    pub few_steps : pos_part (effective_steps floats s) + max_compiled_segments ≤ max_i64

  compile_sources-limit :
      (time_unit : ℤ) (source : List (SourceSegment floats)) (p : Progress floats)
      {p' : Progress floats}
      → All HasFewSteps source
      → IsLaidOut floats p
      → length p.compiled ≤ max_compiled_segments
      → compile_sources floats time_unit source p ≡ ok p'
      → length p'.compiled ≤ max_compiled_segments
  unfolding compile_sources
  compile_sources-limit time_unit [] p hs h n e =
      subst (λ (q : Progress floats). length q.compiled ≤ max_compiled_segments) (ok-injective e) n
  compile_sources-limit time_unit (s ∷ l) p hs h n e =
      let (q, e1, e2) = ok_parts _ e in
      let m = compile_source-moves floats time_unit s p hs.0.duration_fits h e1 in
      let guard = (compile_source-ok floats time_unit s p e1).0 in
      let small =
        small_sum (length p.compiled) (effective_steps floats s) hs.0.steps_fit hs.0.few_steps n
          guard in
      compile_sources-limit time_unit l q hs.1 (compile_source-IsLaidOut floats time_unit s p h e1)
        (omega (arith, m.1, small)) e2

  -- A compiled profile has at most 256 segments, where the durations and steps of its source segments
  -- are int64s and no number of steps is above the largest int64 less 256.
  pub compile-limit :
      (source : List (SourceSegment floats)) (time_unit : ℤ) {c : Compilation floats}
      → All HasFewSteps source
      → compile floats source time_unit ≡ ok c
      → length c.segments ≤ max_compiled_segments
  unfolding finish start
  compile-limit source time_unit hs h =
      let (p, e, eq) = compile-ok floats source time_unit h in
      let small =
        compile_sources-limit time_unit source (start floats) hs (start-IsLaidOut floats)
          (omega arith) e in
      subst (λ (c : Compilation floats). length c.segments ≤ max_compiled_segments) eq small
