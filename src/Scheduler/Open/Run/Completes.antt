-- ===== src/Scheduler/Open/Run/Completes.antt =====
-- Segments whose stages are in order let Run of internal/scheduler/open.go through to its end.
use daegsa.Prelude.{Bool, true, false, List, [], ◌∷◌, ◌≡◌, inl, inr, refl, if◌then◌else◌}
use daegsa.Prelude.Float.{Floats}
use daegsa.Prelude.Text.{Text}
use daegsa.Prelude.Result.{Result, ok}
use daegsa.Core.Lifecycle.{
  LifecycleState, warmup, running, cooldown, completed, LifecycleStateMachine,
  new_lifecycle_state_machine, can_transition_to, transition_to,
}
use daegsa.Profile.Types.{Segment, stage_warmup, stage_measured, stage_cooldown}
use daegsa.Profile.Compile.Stages.{stages}
use daegsa.Config.Validate.Load.Stages.{AreCooldowns, MayCoolDown, AreStaged}
use daegsa.Scheduler.Open.Run.{
  Drain, workers_done, grace_expired, context_done, StageError, enter_stage, finish_run,
  run_segments, run_lifecycle,
}

abbrev pub at : LifecycleState → LifecycleStateMachine
at s = record { current = s }

-- After the loop, a machine that is running or cooling down gets to `completed` whatever happens, and
-- one that is warming up does after a hard cancellation.
running-ends : (d : Drain) (hard : Bool) → finish_run d hard (at running) ≡ at completed
unfolding finish_run transition_to can_transition_to
running-ends workers_done true = refl
running-ends grace_expired true = refl
running-ends context_done true = refl
running-ends workers_done false = refl
running-ends grace_expired false = refl
running-ends context_done false = refl

cooldown-ends : (d : Drain) (hard : Bool) → finish_run d hard (at cooldown) ≡ at completed
unfolding finish_run transition_to can_transition_to
cooldown-ends workers_done true = refl
cooldown-ends grace_expired true = refl
cooldown-ends context_done true = refl
cooldown-ends workers_done false = refl
cooldown-ends grace_expired false = refl
cooldown-ends context_done false = refl

warmup-ends : (d : Drain) → finish_run d true (at warmup) ≡ at completed
unfolding finish_run transition_to can_transition_to
warmup-ends workers_done = refl
warmup-ends grace_expired = refl
warmup-ends context_done = refl

either_way :
    (b : Bool) (m : LifecycleStateMachine) {r : Result StageError LifecycleStateMachine}
    → m ≡ at completed
    → r ≡ ok (at completed)
    → (if b then ok m else r) ≡ ok (at completed)
either_way true m e h = rw e refl
either_way false m e h = h

module _ {floats : Floats} (hard_canceled : Segment floats → Bool) (drain : Drain) where
  abbrev run :
      LifecycleStateMachine → Text → List (Segment floats) → Result StageError LifecycleStateMachine
  run = run_segments hard_canceled drain

  from_cooldown :
      (l : List (Segment floats))
      → AreCooldowns (stages floats l)
      → run (at cooldown) stage_cooldown l ≡ ok (at completed)
  unfolding run_segments
  from_cooldown [] h = rw (cooldown-ends drain false) refl
  from_cooldown (s ∷ l) (q, h) =
      rw q (either_way _ _ (cooldown-ends drain true) (from_cooldown l h))

  from_running :
      (l : List (Segment floats))
      → MayCoolDown (stages floats l)
      → run (at running) stage_measured l ≡ ok (at completed)
  unfolding run_segments enter_stage transition_to can_transition_to
  from_running [] h = rw (running-ends drain false) refl
  from_running (s ∷ l) (inl (q, h)) =
      rw q (either_way _ _ (running-ends drain true) (from_running l h))
  from_running (s ∷ l) (inr (q, h)) =
      rw q (either_way _ _ (cooldown-ends drain true) (from_cooldown l h))

  from_warmup :
      (l : List (Segment floats))
      → AreStaged (stages floats l)
      → run (at warmup) stage_warmup l ≡ ok (at completed)
  unfolding run_segments enter_stage transition_to can_transition_to
  from_warmup [] h = elim h [ ]
  from_warmup (s ∷ l) (inl (q, h)) = rw q (either_way _ _ (warmup-ends drain) (from_warmup l h))
  from_warmup (s ∷ l) (inr (q, h)) =
      rw q (either_way _ _ (running-ends drain true) (from_running l h))

  -- Segments that are warmups, then measured, then cooldowns take the machine from `initialized` to
  -- `completed` with no move refused on the way between stages, whether or not a hard cancellation
  -- breaks the loop, and however the wait for the workers ends.
  pub run_lifecycle-completed :
      (l : List (Segment floats))
      → AreStaged (stages floats l)
      → run_lifecycle hard_canceled drain l ≡ ok (at completed)
  unfolding run_lifecycle run_segments enter_stage transition_to can_transition_to
      new_lifecycle_state_machine
  run_lifecycle-completed [] h = elim h [ ]
  run_lifecycle-completed (s ∷ l) (inl (q, h)) =
      rw q (either_way _ _ (warmup-ends drain) (from_warmup l h))
  run_lifecycle-completed (s ∷ l) (inr (q, h)) =
      rw q (either_way _ _ (running-ends drain true) (from_running l h))
