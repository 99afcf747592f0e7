-- ===== src/Examples/Profile.antt =====
-- A ramp and a steady segment, compiled.
use daegsa.Prelude.{◌≤◌, if◌then◌else◌, ◌*◌, false, List, [], ◌∷◌, ◌≡◌, refl, arith, length}
use daegsa.Prelude.Int.{ℤ, pos, ◌+ℤ◌, ◌-ℤ◌, pos_part, ltb_ℤ, eqb_ℤ, leb_ℤ, ◌≤ℤ◌, quot, rem}
use daegsa.Prelude.Word.{max_i64, wrap64}
use daegsa.Prelude.Float.{Floats, seconds}
use daegsa.Prelude.Text.{codes}
use daegsa.Prelude.Result.{Result, ok, err}
use daegsa.Profile.Types.{
  SourceSegment, Compilation, stage_warmup, max_compiled_segments, stage_measured,
}
use daegsa.Profile.Compile.{ProfileError, compile, effective_steps}
use daegsa.Profile.Compile.Limit.{compile-limit}
use daegsa.Profile.Compile.Offsets.{Covers, Numbered, compile-Covers}
use daegsa.Profile.Compile.Partition.{total, total_steps, compile-total}

-- Whole numbers in place of floating-point ones.
abbrev pub whole : Floats
whole = record {
  Float = ℤ;
  of_int = λ n. n;
  add = λ a b. a +ℤ b;
  sub = λ a b. a -ℤ b;
  mul = λ a b. pos (pos_part a * pos_part b);
  div = quot;
  eq = eqb_ℤ;
  lt = ltb_ℤ;
  le = leb_ℤ;
  abs = λ n. if ltb_ℤ n (pos 0) then pos 0 -ℤ n else n;
  is_nan = λ _. false;
  is_inf = λ _. false;
  to_int64 = λ n. n;
}

-- 10 seconds from 2 to 6 requests a second in 3 steps.
abbrev ramp : SourceSegment whole
ramp = record {
  name = codes "up";
  stage = stage_warmup;
  duration = pos 10_000_000_000;
  rate = pos 0;
  start_rate = pos 2;
  end_rate = pos 6;
  steps = pos 3;
}

abbrev steady : SourceSegment whole
steady = record {
  name = codes "flat";
  stage = stage_measured;
  duration = pos 5_000_000_000;
  rate = pos 6;
  start_rate = pos 0;
  end_rate = pos 0;
  steps = pos 0;
}

abbrev source : List (SourceSegment whole)
source = ramp ∷ steady ∷ []

abbrev compilation : Result ProfileError (Compilation whole) → Compilation whole
compilation (ok c) = c
compilation (err _) = record { segments = []; total_duration = pos 0; peak_target_rps = pos 0 }

abbrev one_second : ℤ
one_second = pos 1_000_000_000

abbrev compiled : Compilation whole
unfolding compile
compiled = compilation (compile whole source one_second)

compiled-ok : compile whole source one_second ≡ ok compiled
unfolding compile seconds quot rem wrap64 ◌+ℤ◌ ◌-ℤ◌
compiled-ok = refl

compile-Covers_example :
    Covers whole (pos 0) compiled.segments compiled.total_duration
    × Numbered whole 0 compiled.segments
    × (pos 0 ≤ℤ compiled.total_duration)
    × (compiled.total_duration ≤ℤ pos max_i64)
compile-Covers_example = compile-Covers whole source one_second compiled-ok

compile-total_example :
    (compiled.total_duration ≡ total whole source)
    × (length compiled.segments ≡ total_steps whole source)
compile-total_example =
    compile-total whole source one_second
      ((omega arith, omega arith), ((omega arith, omega arith), tt)) compiled-ok

compile-limit_example : length compiled.segments ≤ max_compiled_segments
unfolding effective_steps
compile-limit_example =
    compile-limit whole source one_second
      (
        record {
          duration_fits = (omega arith, omega arith);
          steps_fit = (omega arith, omega arith);
          few_steps = omega arith;
        },
        (
          record {
            duration_fits = (omega arith, omega arith);
            steps_fit = (omega arith, omega arith);
            few_steps = omega arith;
          },
          tt,
        ),
      )
      compiled-ok
