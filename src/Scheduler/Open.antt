-- ===== src/Scheduler/Open.antt =====
-- internal/scheduler/open.go: the dispatcher, the channel of jobs and the workers, as atomic steps
-- on one state. The dispatcher alone plans work, and goes through the stages of `Stage` for each
-- arrival that it admits; a worker takes a job, runs it, gives its place back and counts it.
-- ExecuteRequest gives a result or an error, never neither. The counters of the metrics wrap around; the
-- number of requests in flight is a plain one, as it is held against the maximum before each addition.
pub mod Invariant
pub mod Reach
pub mod Drain
pub mod Run
use daegsa.Prelude.{
  ℕ, zero, suc, ◌+◌, ◌-◌, ◌<◌, ◌≤◌, Bool, true, false, List, [], ◌∷◌, ◌++◌, ◌≡◌, ltb, leb,
  if◌then◌else◌, length,
}
use daegsa.Prelude.Word.{inc64}
use daegsa.Core.Outcome.{Outcome}
use daegsa.Core.Outcome

-- Where the dispatcher stands between two arrivals.
pub data Stage : Type 0 where
  waiting admitted reserved : Stage

pub data Execution : Type 0 where
  result : Outcome → Execution
  failed : Execution

pub data WorkerState : Type 0 where
  idle : WorkerState
  executing : WorkerState
  counting : Execution → WorkerState

pub record Worker : Type 0 where
  pub status : WorkerState
  pub started : ℕ
  pub completed : ℕ
  pub canceled : ℕ

-- dispatchJob: the segment and the planned offset of an arrival.
pub record Job : Type 0 where
  pub segment_index : ℕ
  pub planned_offset_ns : ℕ

pub record OpenState : Type 0 where
  pub max_in_flight : ℕ
  pub in_flight_count : ℕ
  pub peak_in_flight : ℕ
  pub planned : ℕ
  pub scheduled : ℕ
  pub dropped : ℕ
  pub stage : Stage
  pub jobs : List Job
  pub workers : List Worker

abbrev pub new_worker : Worker
new_worker = record { status = idle; started = 0; completed = 0; canceled = 0 }

abbrev pub idle_workers : ℕ → List Worker
idle_workers zero = []
idle_workers (suc n) = new_worker ∷ idle_workers n

-- NewOpenScheduler makes as many workers as requests may be in flight.
unfoldable pub new_open_state : ℕ → OpenState
new_open_state max_in_flight = record {
  max_in_flight = max_in_flight;
  in_flight_count = 0;
  peak_in_flight = 0;
  planned = 0;
  scheduled = 0;
  dropped = 0;
  stage = waiting;
  jobs = [];
  workers = idle_workers max_in_flight;
}

-- An arrival is planned, and dropped or admitted by the number of requests in flight.
unfoldable pub plan_arrival : OpenState → OpenState
plan_arrival s =
    if leb s.max_in_flight s.in_flight_count
    then record s { planned = inc64 s.planned; dropped = inc64 s.dropped }
    else record s { planned = inc64 s.planned; scheduled = inc64 s.scheduled; stage = admitted }

-- `inFlightCount.Add(1)`
unfoldable pub reserve : OpenState → OpenState
reserve s = record s { in_flight_count = s.in_flight_count + 1; stage = reserved }

-- A round of the loop that raises the peak, with the count as it is loaded there.
unfoldable pub raise_peak : OpenState → OpenState
raise_peak s =
    if leb s.in_flight_count s.peak_in_flight
    then s
    else record s { peak_in_flight = s.in_flight_count }

-- `jobs <- job`; the channel holds as many jobs as there are workers.
unfoldable pub send_job : Job → OpenState → OpenState
send_job job s = record s { jobs = s.jobs ++ job ∷ []; stage = waiting }

unfoldable pub start_job : Worker → Worker
start_job w = record w { status = executing; started = inc64 w.started }

unfoldable pub end_job : Execution → Worker → Worker
end_job e w = record w { status = counting e }

abbrev pub is_completed : Execution → Bool
is_completed (result o) = if Outcome.is_canceled o then false else true
is_completed failed = false

unfoldable pub count_job : Execution → Worker → Worker
count_job e w =
    if is_completed e
    then record w { status = idle; completed = inc64 w.completed }
    else record w { status = idle; canceled = inc64 w.canceled }

-- One atomic step. The workers before and after the one that moves are `front` and `back`.
pub data Step (s t : OpenState) : Type 0 where
  plan : s.stage ≡ waiting → t ≡ plan_arrival s → Step s t
  add : s.stage ≡ admitted → t ≡ reserve s → Step s t
  peak : s.stage ≡ reserved → t ≡ raise_peak s → Step s t
  send :
      (job : Job)
      → s.stage ≡ reserved
      → length s.jobs < length s.workers
      → t ≡ send_job job s
      → Step s t
  take :
      (job : Job) (rest : List Job) (front back : List Worker) (w : Worker)
      → s.jobs ≡ job ∷ rest
      → s.workers ≡ front ++ (w ∷ back)
      → w.status ≡ idle
      → t ≡ record s { jobs = rest; workers = front ++ (start_job w ∷ back) }
      → Step s t
  finish :
      (e : Execution) (front back : List Worker) (w : Worker)
      → s.workers ≡ front ++ (w ∷ back)
      → w.status ≡ executing
      → t ≡ record s {
        in_flight_count = s.in_flight_count - 1;
        workers = front ++ (end_job e w ∷ back);
      }
      → Step s t
  count :
      (e : Execution) (front back : List Worker) (w : Worker)
      → s.workers ≡ front ++ (w ∷ back)
      → w.status ≡ counting e
      → t ≡ record s { workers = front ++ (count_job e w ∷ back) }
      → Step s t
