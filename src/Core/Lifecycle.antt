-- ===== src/Core/Lifecycle.antt =====
-- internal/core/lifecycle.go: the states of a load test and the legal moves between them. The
-- mutex makes each method one step, so a run is a sequence of calls. A state is a string in the
-- source: `other` holds the texts that are none of the constants.
pub mod Progress
use daegsa.Prelude.{ℕ, suc, Bool, true, false, List, [], ◌∷◌, Option, none, some, if◌then◌else◌}
use daegsa.Prelude.Text.{Text}

pub data LifecycleState : Type 0 where
  initialized warmup running cooldown graceful_stop canceled completed : LifecycleState
  other : Text → LifecycleState

unfoldable pub is_valid : LifecycleState → Bool
is_valid (other _) = false
is_valid initialized = true
is_valid _ = true

unfoldable pub can_transition_to : LifecycleState → LifecycleState → Bool
can_transition_to initialized warmup = true
can_transition_to initialized running = true
can_transition_to initialized canceled = true
can_transition_to warmup running = true
can_transition_to warmup graceful_stop = true
can_transition_to warmup canceled = true
can_transition_to running cooldown = true
can_transition_to running graceful_stop = true
can_transition_to running canceled = true
can_transition_to running completed = true
can_transition_to cooldown graceful_stop = true
can_transition_to cooldown canceled = true
can_transition_to graceful_stop completed = true
can_transition_to graceful_stop canceled = true
can_transition_to canceled completed = true
can_transition_to _ _ = false

-- ErrInvalidStateTransition, with the two states of its message.
pub data TransitionError : Type 0 where
  invalid_state_transition : LifecycleState → LifecycleState → TransitionError

pub record LifecycleStateMachine : Type 0 where
  pub current : LifecycleState

unfoldable pub new_lifecycle_state_machine : LifecycleStateMachine
new_lifecycle_state_machine = record { current = initialized }

-- The new machine, and the error if the move was refused.
unfoldable pub transition_to :
    LifecycleStateMachine
    → LifecycleState
    → record { machine : LifecycleStateMachine; error : Option TransitionError }
unfolding can_transition_to
transition_to m next =
    if can_transition_to m.current next
    then record { machine = record m { current = next }; error = none }
    else record { machine = m; error = some (invalid_state_transition m.current next) }
