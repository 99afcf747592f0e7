-- ===== src/Examples/Open.antt =====
-- A run of one request in flight: an arrival is sent, another is dropped, and a worker takes the
-- first, runs it and counts it.
use daegsa.Prelude.{◌+◌, ◌-◌, ◌%◌, ◌≤◌, ◌<◌, [], ◌∷◌, ◌≡◌, refl, arith, length}
use daegsa.Prelude.Word.{i64_mod}
use daegsa.Core.Outcome.{success}
use daegsa.Scheduler.Open.{
  waiting, reserved, result, Job, OpenState, new_worker, new_open_state, plan_arrival, reserve,
  raise_peak, send_job, start_job, end_job, count_job, plan, add, peak, send, take, finish, count,
}
use daegsa.Scheduler.Open.Invariant.{holds, busy, sum_over, reserving, pending, admitting}
use daegsa.Scheduler.Open.Drain.{LeadsTo, run_drains}
use daegsa.Scheduler.Open.Reach.{
  Reachable, begin, step, in_flight_bounded, send_never_blocks, planned_accounted,
}

abbrev job : Job
job = record { segment_index = 0; planned_offset_ns = 1000 }

abbrev admitted_state : OpenState
admitted_state = plan_arrival (new_open_state 1)

abbrev reserved_state : OpenState
reserved_state = raise_peak (reserve admitted_state)

abbrev dropping_state : OpenState
dropping_state = plan_arrival (send_job job reserved_state)

abbrev taken_state : OpenState
taken_state = record dropping_state { jobs = []; workers = start_job new_worker ∷ [] }

abbrev ended_state : OpenState
ended_state = record taken_state {
  in_flight_count = taken_state.in_flight_count - 1;
  workers = end_job (result success) (start_job new_worker) ∷ [];
}

abbrev counted_state : OpenState
counted_state = record ended_state {
  workers = count_job (result success) (end_job (result success) (start_job new_worker)) ∷ [];
}

reserved_state-Reachable : Reachable 1 reserved_state
unfolding new_open_state plan_arrival reserve
reserved_state-Reachable =
    step (step (step begin (plan refl refl)) (add refl refl)) (peak refl refl)

dropping_state-Reachable : Reachable 1 dropping_state
unfolding new_open_state plan_arrival reserve raise_peak send_job
dropping_state-Reachable =
    step (step reserved_state-Reachable (send job refl (omega arith) refl)) (plan refl refl)

counted_state-Reachable : Reachable 1 counted_state
unfolding new_open_state plan_arrival reserve raise_peak send_job start_job end_job
counted_state-Reachable =
    step
      (step (step dropping_state-Reachable (take job [] [] [] new_worker refl refl refl refl))
        (finish (result success) [] [] (start_job new_worker) refl refl refl))
      (count (result success) [] [] (end_job (result success) (start_job new_worker)) refl refl
        refl)

in_flight_bounded_example :
    (dropping_state.in_flight_count
      ≡ reserving dropping_state.stage
        + length dropping_state.jobs
        + sum_over (λ w. holds w.status) dropping_state.workers)
    × (dropping_state.in_flight_count + admitting dropping_state.stage ≤ 1
        × dropping_state.peak_in_flight ≤ 1)
in_flight_bounded_example = in_flight_bounded dropping_state-Reachable

reserved_state-stage : reserved_state.stage ≡ reserved
unfolding new_open_state plan_arrival reserve raise_peak
reserved_state-stage = refl

send_never_blocks_example :
    length reserved_state.jobs < length reserved_state.workers × length reserved_state.workers ≡ 1
send_never_blocks_example = send_never_blocks reserved_state-Reachable reserved_state-stage

planned_accounted_example :
    counted_state.planned % i64_mod ≡ (counted_state.scheduled + counted_state.dropped) % i64_mod
    × counted_state.scheduled % i64_mod
      ≡ (sum_over (λ w. w.completed) counted_state.workers
          + sum_over (λ w. w.canceled) counted_state.workers
          + sum_over (λ w. busy w.status) counted_state.workers
          + length counted_state.jobs
          + pending counted_state.stage)
        % i64_mod
planned_accounted_example = planned_accounted counted_state-Reachable

dropping_state-stage : dropping_state.stage ≡ waiting
unfolding new_open_state plan_arrival reserve raise_peak send_job
dropping_state-stage = refl

run_drains_example :
    (t : OpenState) × Reachable 1 t
    × LeadsTo t dropping_state
    × (t.planned ≡ dropping_state.planned)
    × (t.in_flight_count ≡ 0)
    × (t.planned % i64_mod
        ≡ (sum_over (λ w. w.completed) t.workers + sum_over (λ w. w.canceled) t.workers + t.dropped)
          % i64_mod)
run_drains_example = run_drains dropping_state-Reachable dropping_state-stage
