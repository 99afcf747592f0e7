-- ===== src/Scheduler/Open/Drain.antt =====
-- Once nothing more is planned, the workers empty the channel and count every job: no state of a run
-- is stuck, and each of their steps leaves less work.
use daegsa.Prelude.{
  ℕ, zero, suc, ◌+◌, ◌-◌, ◌*◌, ◌%◌, ◌≤◌, ◌<◌, List, [], ◌∷◌, ◌++◌, ◌≡◌, ◌⊎◌, inl, inr, refl, ap,
  ◌∙◌, arith, length,
}
use daegsa.Prelude.Word.{i64_mod}
use daegsa.Scheduler.Open.{
  waiting, Execution, failed, WorkerState, idle, executing, counting, Worker, Job, OpenState,
  start_job, end_job, count_job, Step, take, finish, count,
}
use daegsa.Scheduler.Open.Invariant.{holds, busy, sum_over, swap-sum, Inv, reserving, pending}
use daegsa.Scheduler.Open.Reach.{Reachable, step, Reachable-Inv}

-- The steps that a worker still has to make.
abbrev pub effort : WorkerState → ℕ
effort idle = 0
effort executing = 2
effort (counting e) = 1

-- The steps that the workers have to make for the jobs in the channel and in their hands.
abbrev pub work : OpenState → ℕ
work s = 3 * length s.jobs + sum_over (λ w. effort w.status) s.workers

data Pick (l : List Worker) : Type 0 where
  runs :
      (front back : List Worker) (w : Worker)
      → l ≡ front ++ (w ∷ back)
      → w.status ≡ executing
      → Pick l
  counts :
      (e : Execution) (front back : List Worker) (w : Worker)
      → l ≡ front ++ (w ∷ back)
      → w.status ≡ counting e
      → Pick l
  rests : sum_over (λ w. busy w.status) l ≡ 0 → Pick l

Pick-cons :
    (w : Worker) (l : List Worker) → Pick l → (x : WorkerState) → w.status ≡ x → Pick (w ∷ l)
Pick-cons w l p executing h = runs [] l w refl h
Pick-cons w l p (counting e) h = counts e [] l w refl h
Pick-cons w l (runs front back v e k) idle h = runs (w ∷ front) back v (ap (λ m. w ∷ m) e) k
Pick-cons w l (counts x front back v e k) idle h = counts x (w ∷ front) back v (ap (λ m. w ∷ m) e) k
Pick-cons w l (rests k) idle h = rests (omega (arith, ap busy h, k))

pick : (l : List Worker) → Pick l
pick [] = rests refl
pick (w ∷ l) = Pick-cons w l (pick l) w.status refl

effort_bound : (x : WorkerState) → effort x ≤ 2 * busy x
effort_bound idle = omega arith
effort_bound executing = omega arith
effort_bound (counting e) = omega arith

resting_effort :
    (l : List Worker) → sum_over (λ w. effort w.status) l ≤ 2 * sum_over (λ w. busy w.status) l
resting_effort [] = omega arith
resting_effort (w ∷ l) = omega (arith, resting_effort l, effort_bound w.status)

busy-holds : (x : WorkerState) → busy x + holds x ≤ 2 * effort x
busy-holds idle = omega arith
busy-holds executing = omega arith
busy-holds (counting e) = omega arith

count_job-idle : (x : Execution) (w : Worker) → (count_job x w).status ≡ idle
unfolding count_job
count_job-idle x w = ground arith

-- A step of a worker, which plans nothing and leaves less work.
record Advance (s : OpenState) : Type 0 where
  next : OpenState
  moves : Step s next
  less_work : work next < work s
  same_stage : next.stage ≡ s.stage
  same_planned : next.planned ≡ s.planned

idle_of_busy : (x : WorkerState) → busy x ≡ 0 → x ≡ idle
idle_of_busy idle h = refl
idle_of_busy executing h = ground arith
idle_of_busy (counting e) h = ground arith

-- Where every worker rests, the first one takes the next job.
take_first :
    (s : OpenState) (j : Job) (rest : List Job) (l : List Worker)
    → s.jobs ≡ j ∷ rest
    → s.workers ≡ l
    → 0 < length l
    → sum_over (λ w. busy w.status) l ≡ 0
    → Advance s
unfolding start_job
take_first s j rest [] ej ew few resting = ground arith
take_first s j rest (w ∷ back) ej ew few resting =
    let at_rest : w.status ≡ idle = idle_of_busy w.status (omega (arith, resting)) in
    record {
      next = record s { jobs = rest; workers = [] ++ (start_job w ∷ back) };
      moves = take j rest [] back w ej ew at_rest refl;
      less_work = omega (
        arith,
        ap length ej,
        ap effort at_rest,
        swap-sum (λ w. effort w.status) [] back s.workers w (start_job w) ew,
      );
      same_stage = refl;
      same_planned = refl;
    }

advance : (s : OpenState) → Inv s → (work s ≡ 0) ⊎ Advance s
unfolding end_job
advance s h = go (pick s.workers) s.jobs refl
  where
    go : Pick s.workers → (l : List Job) → s.jobs ≡ l → (work s ≡ 0) ⊎ Advance s
    go (runs front back w e k) l ej = inr (record {
      next = record s {
        in_flight_count = s.in_flight_count - 1;
        workers = front ++ (end_job failed w ∷ back);
      };
      moves = finish failed front back w e k refl;
      less_work = omega (
        arith,
        ap effort k,
        swap-sum (λ w. effort w.status) front back s.workers w (end_job failed w) e,
      );
      same_stage = refl;
      same_planned = refl;
    })
    go (counts x front back w e k) l ej = inr (record {
      next = record s { workers = front ++ (count_job x w ∷ back) };
      moves = count x front back w e k refl;
      less_work = omega (
        arith,
        ap effort k,
        ap effort (count_job-idle x w),
        swap-sum (λ w. effort w.status) front back s.workers w (count_job x w) e,
      );
      same_stage = refl;
      same_planned = refl;
    })
    go (rests k) [] ej = inl (omega (arith, ap length ej, resting_effort s.workers, k))
    go (rests k) (j ∷ rest) ej = inr (
        take_first s j rest s.workers ej refl
          (omega (arith, ap length ej, h.in_flight_split, h.in_flight_bound, h.workers_fixed)) k)

-- The steps from a state to `t`.
pub data LeadsTo (t : OpenState) : OpenState → Type 0 where
  here : LeadsTo t t
  after : {s u : OpenState} → Step s u → LeadsTo t u → LeadsTo t s

-- Some run from a state on that plans nothing more and ends with no work left.
pub record IsDrained (n : ℕ) (s : OpenState) : Type 0 where
  pub last : OpenState
  pub led : LeadsTo last s
  pub reached : Reachable n last
  pub at_rest : work last ≡ 0
  pub stays : last.stage ≡ s.stage
  pub no_more_planned : last.planned ≡ s.planned

drain : {n : ℕ} (fuel : ℕ) (s : OpenState) → work s ≤ fuel → Reachable n s → IsDrained n s
drain zero s enough r = record {
  last = s;
  led = here;
  reached = r;
  at_rest = omega (arith, enough);
  stays = refl;
  no_more_planned = refl;
}
drain (suc fuel) s enough r = elim (advance s (Reachable-Inv r)) [
  | inl e ↦ record {
    last = s;
    led = here;
    reached = r;
    at_rest = e;
    stays = refl;
    no_more_planned = refl;
  }
  | inr a ↦
      let d = drain fuel a.next (omega (arith, a.less_work, enough)) (step r a.moves) in
      record {
        last = d.last;
        led = after a.moves d.led;
        reached = d.reached;
        at_rest = d.at_rest;
        stays = d.stays ∙ a.same_stage;
        no_more_planned = d.no_more_planned ∙ a.same_planned;
      }
]

busy-effort :
    (l : List Worker)
    → sum_over (λ w. busy w.status) l + sum_over (λ w. holds w.status) l
      ≤ 2 * sum_over (λ w. effort w.status) l
busy-effort [] = omega arith
busy-effort (w ∷ l) = omega (arith, busy-effort l, busy-holds w.status)

-- From every state of a run in which the dispatcher waits, steps lead to a state of the run in which
-- nothing is in flight and every planned arrival was completed, canceled or dropped, by the counters
-- modulo 2 ^ 64, with no further arrival planned.
pub run_drains :
    {n : ℕ} {s : OpenState}
    → Reachable n s
    → s.stage ≡ waiting
    → (t : OpenState) × Reachable n t
      × LeadsTo t s
      × (t.planned ≡ s.planned)
      × (t.in_flight_count ≡ 0)
      × (t.planned % i64_mod
          ≡ (sum_over (λ w. w.completed) t.workers
              + sum_over (λ w. w.canceled) t.workers
              + t.dropped)
            % i64_mod)
run_drains {n} {s} r h =
    let d = drain (work s) s (omega arith) r in
    let waits : d.last.stage ≡ waiting = d.stays ∙ h in
    let i = Reachable-Inv d.reached in
    let b = busy-effort d.last.workers in
    (
      d.last,
      d.reached,
      d.led,
      d.no_more_planned,
      omega (arith, d.at_rest, b, i.in_flight_split, ap reserving waits),
      omega (
        arith,
        d.at_rest,
        b,
        i.planned_split,
        i.scheduled_split,
        i.started_split,
        ap pending waits,
      ),
    )
