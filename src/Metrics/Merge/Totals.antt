-- ===== src/Metrics/Merge/Totals.antt =====
-- The merged record holds the sums of the workers' records.
use daegsa.Prelude.{ℕ, ◌+◌, ◌%◌, List, [], ◌∷◌, Option, none, some, ◌≡◌, arith}
use daegsa.Prelude.Word.{i64_mod}
use daegsa.Core.Outcome.{Outcome}
use daegsa.Metrics.Histogram.{HdrLibrary, HdrLaws, count-merge_histogram}
use daegsa.Metrics.Samples.{ErrorSample}
use daegsa.Metrics.Samples.Bounds.{IsErrorList, merge_error_sample-IsErrorList}
use daegsa.Metrics.Worker.{WorkerMetrics}
use daegsa.Metrics.Worker.Accounting.{count_of, count_of-add_status}
use daegsa.Metrics.Worker.{add_status}
use daegsa.Metrics.Merge.{
  merge_rate_limits, Aggregate, add_worker, add_workers, merge_workers, empty_aggregate,
  merge_statuses, merge_error_samples,
}

count_of-merge_statuses :
    (s : ℕ) (source destination : List (ℕ × ℕ))
    → count_of s (merge_statuses source destination) % i64_mod
      ≡ (count_of s destination + count_of s source) % i64_mod
unfolding merge_statuses
count_of-merge_statuses s [] destination = omega arith
count_of-merge_statuses s ((t, n) ∷ source) destination = omega (
  arith,
  count_of-merge_statuses s source (add_status t n destination),
  count_of-add_status s t n destination,
)

merge_error_samples-IsErrorList :
    (source destination : List ErrorSample)
    → IsErrorList destination
    → IsErrorList (merge_error_samples source destination)
unfolding merge_error_samples
merge_error_samples-IsErrorList [] destination h = h
merge_error_samples-IsErrorList (s ∷ source) destination h =
    merge_error_samples-IsErrorList source _ (merge_error_sample-IsErrorList s destination h)

module _ (lib : HdrLibrary) where
  abbrev pub Workers : Type 0
  Workers = List (Option (WorkerMetrics lib))

  -- A quantity summed over the workers that are not nil.
  abbrev pub sum_over : (WorkerMetrics lib → ℕ) → Workers → ℕ
  sum_over f [] = 0
  sum_over f (none ∷ l) = sum_over f l
  sum_over f (some w ∷ l) = f w + sum_over f l

  -- A field that a round adds to, modulo 2 ^ 64, ends as the sum.
  add_workers-sum :
      (get : Aggregate lib → ℕ) (f : WorkerMetrics lib → ℕ)
      → ((w : WorkerMetrics lib) (a : Aggregate lib)
          → get (add_worker lib w a) % i64_mod ≡ (get a + f w) % i64_mod)
      → (l : Workers) (a : Aggregate lib)
      → get (add_workers lib l a) % i64_mod ≡ (get a + sum_over f l) % i64_mod
  unfolding add_workers
  add_workers-sum get f step [] a = omega arith
  add_workers-sum get f step (none ∷ l) a = add_workers-sum get f step l a
  add_workers-sum get f step (some w ∷ l) a =
      omega (arith, add_workers-sum get f step l (add_worker lib w a), step w a)

  -- A field that a round adds to exactly.
  add_workers-exact :
      (get : Aggregate lib → ℕ) (f : WorkerMetrics lib → ℕ)
      → ((w : WorkerMetrics lib) (a : Aggregate lib) → get (add_worker lib w a) ≡ get a + f w)
      → (l : Workers) (a : Aggregate lib) → get (add_workers lib l a) ≡ get a + sum_over f l
  unfolding add_workers
  add_workers-exact get f step [] a = omega arith
  add_workers-exact get f step (none ∷ l) a = add_workers-exact get f step l a
  add_workers-exact get f step (some w ∷ l) a =
      omega (arith, add_workers-exact get f step l (add_worker lib w a), step w a)

  -- The lifecycle counters, the count of every outcome and of every status, the bytes and the
  -- observed 429s of the merged record are the sums over the workers, modulo 2 ^ 64.
  pub merge_workers-sums :
      (l : Workers)
      → let a = merge_workers lib l in
        (a.planned % i64_mod ≡ sum_over (λ w. w.planned) l % i64_mod)
        × (a.scheduled % i64_mod ≡ sum_over (λ w. w.scheduled) l % i64_mod)
        × (a.started % i64_mod ≡ sum_over (λ w. w.started) l % i64_mod)
        × (a.completed % i64_mod ≡ sum_over (λ w. w.completed) l % i64_mod)
        × (a.canceled % i64_mod ≡ sum_over (λ w. w.canceled) l % i64_mod)
        × (a.dropped % i64_mod ≡ sum_over (λ w. w.dropped) l % i64_mod)
        × ((o : Outcome) → a.outcomes o % i64_mod ≡ sum_over (λ w. w.outcomes o) l % i64_mod)
        × ((s : ℕ)
            → count_of s a.status_codes % i64_mod
              ≡ sum_over (λ w. count_of s w.status_codes) l % i64_mod)
        × (a.bytes_sent % i64_mod ≡ sum_over (λ w. w.bytes_sent) l % i64_mod)
        × (a.bytes_received % i64_mod ≡ sum_over (λ w. w.bytes_received) l % i64_mod)
        × (a.rate_limits.observed_429_count % i64_mod
            ≡ sum_over (λ w. w.rate_limits.observed_429_count) l % i64_mod)
  unfolding merge_workers add_worker empty_aggregate merge_rate_limits
  merge_workers-sums l =
      let sum =
        λ (get : Aggregate lib → ℕ) (f : WorkerMetrics lib → ℕ)
            (step : (w : WorkerMetrics lib) (a : Aggregate lib)
              → get (add_worker lib w a) % i64_mod ≡ (get a + f w) % i64_mod).
          add_workers-sum get f step l (empty_aggregate lib) in
      (
        omega (arith, sum (λ a. a.planned) (λ w. w.planned) (λ w a. omega arith)),
        omega (arith, sum (λ a. a.scheduled) (λ w. w.scheduled) (λ w a. omega arith)),
        omega (arith, sum (λ a. a.started) (λ w. w.started) (λ w a. omega arith)),
        omega (arith, sum (λ a. a.completed) (λ w. w.completed) (λ w a. omega arith)),
        omega (arith, sum (λ a. a.canceled) (λ w. w.canceled) (λ w a. omega arith)),
        omega (arith, sum (λ a. a.dropped) (λ w. w.dropped) (λ w a. omega arith)),
        (λ o. omega (arith, sum (λ a. a.outcomes o) (λ w. w.outcomes o) (λ w a. omega arith))),
        (λ s. omega (
          arith,
          sum (λ a. count_of s a.status_codes) (λ w. count_of s w.status_codes)
              (λ w a. count_of-merge_statuses s w.status_codes a.status_codes),
        )),
        omega (arith, sum (λ a. a.bytes_sent) (λ w. w.bytes_sent) (λ w a. omega arith)),
        omega (arith, sum (λ a. a.bytes_received) (λ w. w.bytes_received) (λ w a. omega arith)),
        omega (
          arith,
          sum (λ a. a.rate_limits.observed_429_count) (λ w. w.rate_limits.observed_429_count)
              (λ w a. omega arith),
        ),
      )

  -- By the laws of the histogram library, the merged histograms hold as many latencies as the workers'
  -- together.
  pub merge_workers-latencies :
      (laws : HdrLaws lib) (l : Workers)
      → let a = merge_workers lib l in
        (lib.total_count a.all_latency ≡ sum_over (λ w. lib.total_count w.all_latency) l)
        × (lib.total_count a.success_latency ≡ sum_over (λ w. lib.total_count w.success_latency) l)
  unfolding merge_workers add_worker empty_aggregate
  merge_workers-latencies laws l = (
    omega (
      arith,
      laws.count_new,
      add_workers-exact (λ a. lib.total_count a.all_latency) (λ w. lib.total_count w.all_latency)
          (λ w a. count-merge_histogram lib laws a.all_latency w.all_latency) l
          (empty_aggregate lib),
    ),
    omega (
      arith,
      laws.count_new,
      add_workers-exact (λ a. lib.total_count a.success_latency)
          (λ w. lib.total_count w.success_latency)
          (λ w a. count-merge_histogram lib laws a.success_latency w.success_latency) l
          (empty_aggregate lib),
    ),
  )
