-- ===== src/Examples/Run.antt =====
-- The lifecycle of a run of one measured segment that the end of its context interrupts.
use daegsa.Prelude.{true, false, [], ◌∷◌, ◌≡◌, refl}
use daegsa.Prelude.Int.{pos, quot, rem, ◌+ℤ◌, ◌-ℤ◌}
use daegsa.Prelude.Word.{wrap64}
use daegsa.Prelude.Float.{seconds}
use daegsa.Prelude.Text.{codes}
use daegsa.Prelude.Result.{ok}
use daegsa.Core.Lifecycle.{completed}
use daegsa.Profile.Types.{Segment, Compilation}
use daegsa.Profile.Compile.{compile, effective_steps}
use daegsa.Config.Types.{profile_source}
use daegsa.Config.Validate.Load.{compile_load_profile}
use daegsa.Scheduler.Open.Run.{context_done, run_lifecycle}
use daegsa.Scheduler.Open.Run.Completes.{at}
use daegsa.Scheduler.Open.Run.Validated.{run_lifecycle-validated}
use daegsa.Examples.Hosts.{one_address}
use daegsa.Examples.Profile.{whole}
use daegsa.Examples.Config.{load, valid_load, load-ok}

abbrev compiled : Compilation whole
compiled = record {
  segments =
      (record {
        index = 0;
        name = codes "flat";
        stage = codes "measured";
        start_offset = pos 0;
        end_offset = pos 5_000_000_000;
        start_offset_ms = pos 0;
        end_offset_ms = pos 5000;
        duration = pos 5_000_000_000;
        duration_ms = pos 5000;
        rate = pos 6;
        target_rps = pos 6;
        included_measured = true;
      })
      ∷ [];
  total_duration = pos 5_000_000_000;
  peak_target_rps = pos 6;
}

compiled-ok : compile_load_profile one_address.unicode whole valid_load ≡ ok compiled
unfolding compile_load_profile compile profile_source seconds quot rem wrap64 ◌+ℤ◌ ◌-ℤ◌
    effective_steps
compiled-ok = refl

run_lifecycle-validated_example :
    run_lifecycle (λ (s : Segment whole). false) context_done compiled.segments ≡ ok (at completed)
run_lifecycle-validated_example =
    run_lifecycle-validated one_address.unicode whole (λ s. false) context_done load (pos 2) refl
      load-ok compiled-ok
