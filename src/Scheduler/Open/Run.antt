-- ===== src/Scheduler/Open/Run.antt =====
-- The lifecycle in Run and enterStage of internal/scheduler/open.go. Whether scheduleSegment tells of a
-- hard cancellation in a segment, and what ends the wait for the workers, are arguments.
pub mod Completes
pub mod Validated
use daegsa.Prelude.{Bool, true, false, List, [], ◌∷◌, Option, none, some, not, if◌then◌else◌}
use daegsa.Prelude.Text.{Text, text_eq}
use daegsa.Prelude.Result.{Result, ok, err, ◌>>=◌}
use daegsa.Core.Lifecycle.{
  LifecycleState, warmup, running, cooldown, graceful_stop, canceled, completed,
  LifecycleStateMachine, TransitionError, new_lifecycle_state_machine, transition_to,
}
use daegsa.Prelude.Float.{Floats}
use daegsa.Profile.Types.{Segment, stage_warmup, stage_measured, stage_cooldown}

-- Segments are never empty: the constructor of the scheduler makes one where the plan has none.
pub data StageError : Type 0 where
  refused : TransitionError → StageError
  unknown_stage : Text → StageError
  no_segments : StageError

abbrev pub moved :
    LifecycleStateMachine → Option TransitionError → Result StageError LifecycleStateMachine
moved m none = ok m
moved m (some e) = err (refused e)

abbrev pub move : LifecycleStateMachine → LifecycleState → Result StageError LifecycleStateMachine
move m next = let r = transition_to m next in moved r.machine r.error

unfoldable pub enter_stage : LifecycleStateMachine → Text → Result StageError LifecycleStateMachine
enter_stage m stage =
    if text_eq stage stage_warmup
    then move m warmup
    else if text_eq stage stage_measured
    then move m running
    else if text_eq stage stage_cooldown
    then move m cooldown
    else err (unknown_stage stage)

-- What the wait for the workers ends by.
pub data Drain : Type 0 where
  workers_done grace_expired context_done : Drain

-- A move whose error the code drops.
abbrev pub move_anyway : LifecycleStateMachine → LifecycleState → LifecycleStateMachine
move_anyway m next = (transition_to m next).machine

abbrev pub after_wait : Drain → LifecycleStateMachine → LifecycleStateMachine
after_wait workers_done m = m
after_wait grace_expired m = m
after_wait context_done m = move_anyway m canceled

-- From the closing of the channel on, after a hard cancellation or without one.
unfoldable pub finish_run : Drain → Bool → LifecycleStateMachine → LifecycleStateMachine
finish_run drain hard m =
    let stopped =
      if hard then move_anyway m canceled else after_wait drain (move_anyway m graceful_stop) in
    move_anyway stopped completed

module _ {floats : Floats} (hard_canceled : Segment floats → Bool) (drain : Drain) where
  -- The loop over the segments, and what follows it.
  unfoldable pub run_segments :
      LifecycleStateMachine → Text → List (Segment floats) → Result StageError LifecycleStateMachine
  run_segments m previous [] = ok (finish_run drain false m)
  run_segments m previous (s ∷ l) =
      (if not (text_eq s.stage previous) then enter_stage m s.stage else ok m) >>= λ m'.
      (let rest = run_segments m' s.stage l in
        if hard_canceled s then ok (finish_run drain true m') else rest)

  unfoldable pub run_lifecycle : List (Segment floats) → Result StageError LifecycleStateMachine
  run_lifecycle [] = err no_segments
  run_lifecycle (s ∷ l) =
      enter_stage new_lifecycle_state_machine s.stage >>= λ m. run_segments m s.stage (s ∷ l)
