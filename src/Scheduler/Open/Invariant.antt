-- ===== src/Scheduler/Open/Invariant.antt =====
-- What holds between any two steps of an open run.
use daegsa.Prelude.{ℕ, ◌+◌, ◌%◌, ◌≤◌, List, [], ◌∷◌, ◌++◌, ◌≡◌, ap, arith, length, length-append}
use daegsa.Prelude.Word.{i64_mod}
use daegsa.Scheduler.Open.{
  Stage, waiting, admitted, reserved, Execution, WorkerState, idle, executing, Worker, OpenState,
  plan_arrival, reserve, raise_peak, send_job, start_job, end_job, count_job, Step, plan, add, peak,
  send, take, finish, count,
}

-- Whether a worker holds a place among the requests in flight, and whether it runs or counts a job.
abbrev pub holds : WorkerState → ℕ
holds executing = 1
holds _ = 0

abbrev pub busy : WorkerState → ℕ
busy idle = 0
busy _ = 1

-- A quantity of the workers, added up.
abbrev pub sum_over : (Worker → ℕ) → List Worker → ℕ
sum_over f [] = 0
sum_over f (w ∷ l) = f w + sum_over f l

sum_over-append :
    (f : Worker → ℕ) (l m : List Worker) → sum_over f (l ++ m) ≡ sum_over f l + sum_over f m
sum_over-append f [] m = omega arith
sum_over-append f (w ∷ l) m = omega (arith, sum_over-append f l m)

-- The places of the dispatcher's own arrival: one that it has reserved, and one that it has
-- admitted or reserved.
abbrev pub reserving : Stage → ℕ
reserving reserved = 1
reserving _ = 0

abbrev pub pending : Stage → ℕ
pending waiting = 0
pending _ = 1

abbrev pub admitting : Stage → ℕ
admitting admitted = 1
admitting _ = 0

-- The counters are sums modulo 2 ^ 64; the rest is exact.
pub record Inv (s : OpenState) : Type 0 where
  pub planned_split : s.planned % i64_mod ≡ (s.scheduled + s.dropped) % i64_mod
  pub scheduled_split :
      s.scheduled % i64_mod
      ≡ (pending s.stage + length s.jobs + sum_over (λ w. w.started) s.workers) % i64_mod
  pub in_flight_split :
      s.in_flight_count
      ≡ reserving s.stage + length s.jobs + sum_over (λ w. holds w.status) s.workers
  pub in_flight_bound : s.in_flight_count + admitting s.stage ≤ s.max_in_flight
  pub peak_bound : s.peak_in_flight ≤ s.max_in_flight
  pub workers_fixed : length s.workers ≡ s.max_in_flight
  pub started_split :
      sum_over (λ w. w.started) s.workers % i64_mod
      ≡ (sum_over (λ w. w.completed) s.workers
          + sum_over (λ w. w.canceled) s.workers
          + sum_over (λ w. busy w.status) s.workers)
        % i64_mod

-- A worker in the middle of the list is changed: what that does to a sum.
pub swap-sum :
    (f : Worker → ℕ) (front back l : List Worker) (w v : Worker)
    → l ≡ front ++ (w ∷ back)
    → sum_over f (front ++ (v ∷ back)) + f w ≡ sum_over f l + f v
swap-sum f front back l w v e =
    rw e (omega (arith, sum_over-append f front (w ∷ back), sum_over-append f front (v ∷ back)))

swap-length :
    (front back l : List Worker) (w v : Worker)
    → l ≡ front ++ (w ∷ back)
    → length (front ++ (v ∷ back)) ≡ length l
swap-length front back l w v e =
    rw e (omega (arith, length-append front (w ∷ back), length-append front (v ∷ back)))

-- What a change of one worker does to each quantity of the invariant.
record Moved (front back l : List Worker) (w v : Worker) : Type 0 where
  same_length : length (front ++ (v ∷ back)) ≡ length l
  started_moved :
      sum_over (λ w. w.started) (front ++ (v ∷ back)) + w.started
      ≡ sum_over (λ w. w.started) l + v.started
  completed_moved :
      sum_over (λ w. w.completed) (front ++ (v ∷ back)) + w.completed
      ≡ sum_over (λ w. w.completed) l + v.completed
  canceled_moved :
      sum_over (λ w. w.canceled) (front ++ (v ∷ back)) + w.canceled
      ≡ sum_over (λ w. w.canceled) l + v.canceled
  holds_moved :
      sum_over (λ w. holds w.status) (front ++ (v ∷ back)) + holds w.status
      ≡ sum_over (λ w. holds w.status) l + holds v.status
  busy_moved :
      sum_over (λ w. busy w.status) (front ++ (v ∷ back)) + busy w.status
      ≡ sum_over (λ w. busy w.status) l + busy v.status

swap-Moved :
    (front back l : List Worker) (w v : Worker) → l ≡ front ++ (w ∷ back) → Moved front back l w v
swap-Moved front back l w v e = record {
  same_length = swap-length front back l w v e;
  started_moved = swap-sum (λ w. w.started) front back l w v e;
  completed_moved = swap-sum (λ w. w.completed) front back l w v e;
  canceled_moved = swap-sum (λ w. w.canceled) front back l w v e;
  holds_moved = swap-sum (λ w. holds w.status) front back l w v e;
  busy_moved = swap-sum (λ w. busy w.status) front back l w v e;
}

-- Counting a job makes the worker idle, with one more job done.
record Counted (w v : Worker) : Type 0 where
  same_started : v.started ≡ w.started
  now_idle : v.status ≡ idle
  one_more : (v.completed + v.canceled) % i64_mod ≡ (w.completed + w.canceled + 1) % i64_mod

counted : (x : Execution) (w : Worker) → Counted w (count_job x w)
unfolding count_job
counted x w = ground (arith)

pub Step-Inv : {s t : OpenState} → Step s t → Inv s → Inv t
unfolding plan_arrival reserve raise_peak send_job start_job end_job count_job
Step-Inv {s} {t} (plan st e) h = rw e (ground arith)
Step-Inv {s} {t} (add st e) h = rw e (ground arith)
Step-Inv {s} {t} (peak st e) h = rw e (ground arith)
Step-Inv {s} {t} (send job st room e) h = rw e (ground (arith, length-append s.jobs (job ∷ [])))
Step-Inv {s} {t} (take job rest front back w j ws st e) h = rw e (
    ground (
      arith,
      ap length j,
      ap holds st,
      ap busy st,
      swap-Moved front back s.workers w (start_job w) ws,
    ))
Step-Inv {s} {t} (finish x front back w ws st e) h =
    rw e
      (ground (arith, ap holds st, ap busy st, swap-Moved front back s.workers w (end_job x w) ws))
Step-Inv {s} {t} (count x front back w ws st e) h = rw e (
    ground (
      arith,
      ap holds st,
      ap busy st,
      counted x w,
      swap-Moved front back s.workers w (count_job x w) ws,
    ))
