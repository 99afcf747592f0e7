-- ===== src/Core/Lifecycle/Progress.antt =====
-- A run moves forward only: every accepted move raises a rank, and `completed` is the end.
use daegsa.Prelude.{
  ℕ, suc, ◌+◌, ◌≤◌, ◌<◌, true, List, [], ◌∷◌, Option, none, some, ◌≡◌, refl, arith,
}
use daegsa.Core.Lifecycle.{
  LifecycleState, initialized, warmup, running, cooldown, graceful_stop, canceled, completed, other,
  LifecycleStateMachine, TransitionError, is_valid, can_transition_to, transition_to,
  new_lifecycle_state_machine,
}

-- How far a state is along a run.
abbrev pub rank : LifecycleState → ℕ
rank initialized = 0
rank warmup = 1
rank running = 2
rank cooldown = 3
rank graceful_stop = 4
rank canceled = 5
rank completed = 6
rank (other _) = 7

-- The states requested one after another, and how many of the requests were accepted.
abbrev pub accepted : Option TransitionError → ℕ → ℕ
accepted none n = suc n
accepted (some _) n = n

unfoldable pub request_all :
    LifecycleStateMachine
    → List LifecycleState
    → record { machine : LifecycleStateMachine; moves : ℕ }
request_all m [] = record { machine = m; moves = 0 }
request_all m (s ∷ rest) =
    let r = transition_to m s in
    let after = request_all r.machine rest in
    record { machine = after.machine; moves = accepted r.error after.moves }

can_transition_to-rank :
    (s t : LifecycleState) → can_transition_to s t ≡ true → (rank s < rank t) × (rank t ≤ 6)
unfolding can_transition_to
can_transition_to-rank s t h = ground arith

transition_to-rank :
    (m : LifecycleStateMachine) (s : LifecycleState)
    → rank m.current ≤ 6
    → (rank (transition_to m s).machine.current ≤ 6)
      × (accepted (transition_to m s).error (rank m.current)
          ≤ rank (transition_to m s).machine.current)
unfolding transition_to
transition_to-rank m s h = ground (arith, can_transition_to-rank m.current s)

request_all-rank :
    (m : LifecycleStateMachine) (l : List LifecycleState)
    → rank m.current ≤ 6
    → (rank (request_all m l).machine.current ≤ 6)
      × (rank m.current + (request_all m l).moves ≤ rank (request_all m l).machine.current)
unfolding request_all
request_all-rank m [] h = omega arith
request_all-rank m (s ∷ l) h =
    ground (arith, transition_to-rank m s h, request_all-rank (transition_to m s).machine l)

-- Whatever states are requested of a new machine, it accepts at most six moves, its rank grows by
-- at least one with each of them, and it never leaves the seven recognized states.
pub request_all_bounded :
    (l : List LifecycleState)
    → let r = request_all new_lifecycle_state_machine l in
      (r.moves ≤ rank r.machine.current) × (r.moves ≤ 6) × (is_valid r.machine.current ≡ true)
unfolding new_lifecycle_state_machine is_valid
request_all_bounded l = ground (arith, request_all-rank (record { current = initialized }) l)

-- A machine in `completed` refuses every request and stays there.
pub completed-request_all :
    (l : List LifecycleState)
    → request_all (record { current = completed }) l
      ≡ record { machine = record { current = completed }; moves = 0 }
unfolding request_all transition_to
completed-request_all [] = refl
completed-request_all (s ∷ l) = ground (arith, completed-request_all l)
