-- ===== src/Scheduler/Open/Reach.antt =====
-- What every state of an open run satisfies, from NewOpenScheduler on.
use daegsa.Prelude.{ℕ, zero, suc, ◌+◌, ◌%◌, ◌≤◌, ◌<◌, ◌≡◌, refl, ap, ◌∙◌, arith, length}
use daegsa.Prelude.Word.{i64_mod}
use daegsa.Scheduler.Open.{
  reserved, Worker, OpenState, new_worker, idle_workers, new_open_state, plan_arrival, reserve,
  raise_peak, send_job, Step, plan, add, peak, send, take, finish, count,
}
use daegsa.Scheduler.Open.Invariant.{
  holds, busy, sum_over, reserving, pending, admitting, Inv, Step-Inv,
}

-- The states of a run of a scheduler of `n` requests in flight.
pub data Reachable (n : ℕ) : OpenState → Type 0 where
  begin : Reachable n (new_open_state n)
  step : {s t : OpenState} → Reachable n s → Step s t → Reachable n t

sum_over-idle_workers :
    (f : Worker → ℕ) → f new_worker ≡ 0 → (n : ℕ) → sum_over f (idle_workers n) ≡ 0
sum_over-idle_workers f h zero = refl
sum_over-idle_workers f h (suc n) = omega (arith, h, sum_over-idle_workers f h n)

length-idle_workers : (n : ℕ) → length (idle_workers n) ≡ n
length-idle_workers zero = refl
length-idle_workers (suc n) = omega (arith, length-idle_workers n)

new_open_state-Inv : (n : ℕ) → Inv (new_open_state n)
unfolding new_open_state
new_open_state-Inv n = ground (
  arith,
  length-idle_workers n,
  sum_over-idle_workers (λ w. w.started) refl n,
  sum_over-idle_workers (λ w. w.completed) refl n,
  sum_over-idle_workers (λ w. w.canceled) refl n,
  sum_over-idle_workers (λ w. holds w.status) refl n,
  sum_over-idle_workers (λ w. busy w.status) refl n,
)

pub Reachable-Inv : {n : ℕ} {s : OpenState} → Reachable n s → Inv s
Reachable-Inv {n} begin = new_open_state-Inv n
Reachable-Inv (step r x) = Step-Inv x (Reachable-Inv r)

Step-max_in_flight : {s t : OpenState} → Step s t → t.max_in_flight ≡ s.max_in_flight
unfolding plan_arrival reserve raise_peak send_job
Step-max_in_flight (plan st e) = rw e (ground arith)
Step-max_in_flight (add st e) = rw e refl
Step-max_in_flight (peak st e) = rw e (ground arith)
Step-max_in_flight (send job st room e) = rw e refl
Step-max_in_flight (take job rest front back w j ws st e) = rw e refl
Step-max_in_flight (finish x front back w ws st e) = rw e refl
Step-max_in_flight (count x front back w ws st e) = rw e refl

Reachable-max_in_flight : {n : ℕ} {s : OpenState} → Reachable n s → s.max_in_flight ≡ n
unfolding new_open_state
Reachable-max_in_flight begin = refl
Reachable-max_in_flight (step r x) = Step-max_in_flight x ∙ Reachable-max_in_flight r

-- In every state of a run the requests in flight are the jobs in the channel, the jobs that are
-- executing and the place that the dispatcher has reserved; with the place of an arrival that is
-- admitted and not yet reserved they are at most `n`, and so is the peak.
pub in_flight_bounded :
    {n : ℕ} {s : OpenState}
    → Reachable n s
    → s.in_flight_count
        ≡ reserving s.stage + length s.jobs + sum_over (λ w. holds w.status) s.workers
      × (s.in_flight_count + admitting s.stage ≤ n × s.peak_in_flight ≤ n)
in_flight_bounded r =
    let h = Reachable-Inv r in
    ground (arith, Reachable-max_in_flight r, h.in_flight_split, h.in_flight_bound, h.peak_bound)

-- When the dispatcher has reserved a place for an arrival, the channel of jobs has room for it: the
-- send does not wait for a worker, however the workers are interleaved with it.
pub send_never_blocks :
    {n : ℕ} {s : OpenState}
    → Reachable n s
    → s.stage ≡ reserved
    → length s.jobs < length s.workers × length s.workers ≡ n
send_never_blocks r st =
    let h = Reachable-Inv r in
    ground (
      arith,
      ap reserving st,
      ap admitting st,
      Reachable-max_in_flight r,
      h.in_flight_split,
      h.in_flight_bound,
      h.workers_fixed,
    )

-- In every state of a run each planned arrival is dropped, completed, canceled, in a worker's
-- hands, in the channel, or the dispatcher's current one, as far as the counters tell, which are
-- counted modulo 2 ^ 64.
pub planned_accounted :
    {n : ℕ} {s : OpenState}
    → Reachable n s
    → s.planned % i64_mod ≡ (s.scheduled + s.dropped) % i64_mod
      × s.scheduled % i64_mod
        ≡ (sum_over (λ w. w.completed) s.workers
            + sum_over (λ w. w.canceled) s.workers
            + sum_over (λ w. busy w.status) s.workers
            + length s.jobs
            + pending s.stage)
          % i64_mod
planned_accounted r =
    let h = Reachable-Inv r in ground (arith, h.planned_split, h.scheduled_split, h.started_split)
