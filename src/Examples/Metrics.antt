-- ===== src/Examples/Metrics.antt =====
-- Results recorded by a worker, and two workers merged.
use daegsa.Prelude.{
  ℕ, ◌+◌, ◌%◌, List, [], ◌∷◌, Option, none, some, ◌≡◌, ◌≢◌, ◌⊎◌, refl, ltb, ◌==◌, ◌&&◌,
  if◌then◌else◌,
}
use daegsa.Prelude.Int.{pos}
use daegsa.Prelude.Word.{i64_mod}
use daegsa.Prelude.Text.{Text, codes}
use daegsa.Core.Outcome.{Outcome, success, timeout, is_success}
use daegsa.Metrics.Histogram.{HdrLibrary, HdrLaws}
use daegsa.Metrics.Worker.{Result, WorkerMetrics, record_result, new_worker_metrics}
use daegsa.Metrics.Worker.Accounting.{count_of, record_result-counts}
use daegsa.Metrics.Worker.Bounded.{IsBounded, record_all, record_all-IsBounded}
use daegsa.Metrics.Merge.{merge_workers}
use daegsa.Metrics.Merge.Totals.{sum_over, merge_workers-sums, merge_workers-latencies}

-- A histogram that keeps the number of its values alone.
abbrev counting : HdrLibrary
counting = record {
  Hdr = ℕ;
  new = 0;
  record_value = λ h v. some (h + 1);
  total_count = λ h. h;
  merge = λ h k. h + k;
  min_value = λ _. pos 1;
  max_value = λ _. pos 1;
}

counting-laws : HdrLaws counting
counting-laws = record {
  count_new = refl;
  count_record = λ h v lo hi. (h + 1, refl, refl);
  count_merge = λ h k. refl;
}

abbrev trim : Text → Text
trim s = s

abbrev answered : Result
answered = record {
  outcome = success;
  status_code = 200;
  latency = pos 2_000_000;
  ttfb = pos 1_000_000;
  bytes_sent = 10;
  bytes_received = 500;
  rate_limit_info = none;
  err = none;
}

abbrev timed_out : Result
timed_out = record answered {
  outcome = timeout;
  status_code = 0;
  bytes_received = 0;
  err = some (codes "deadline exceeded");
}

abbrev fresh : WorkerMetrics counting
fresh = new_worker_metrics counting (pos 1)

abbrev one_recorded : WorkerMetrics counting
one_recorded = record_result trim counting timed_out fresh

abbrev workers : List (Option (WorkerMetrics counting))
workers = some one_recorded ∷ none ∷ some (record_result trim counting answered one_recorded) ∷ []

record_result-counts_example :
    let w' = record_result trim counting answered one_recorded in
    (((success ≡ answered.outcome)
        × (w'.outcomes success % i64_mod ≡ (one_recorded.outcomes success + 1) % i64_mod))
      ⊎ ((success ≢ answered.outcome) × (w'.outcomes success ≡ one_recorded.outcomes success)))
    × (count_of 200 w'.status_codes % i64_mod
        ≡ (count_of 200 one_recorded.status_codes
            + (if ltb 0 answered.status_code && answered.status_code == 200 then 1 else 0))
          % i64_mod)
    × (w'.all_latency ≡ one_recorded.all_latency + 1)
    × (w'.success_latency
        ≡ one_recorded.success_latency + (if is_success answered.outcome then 1 else 0))
record_result-counts_example =
    record_result-counts trim counting counting-laws answered one_recorded success 200

record_all-IsBounded_example : IsBounded trim counting (
    record_all trim counting
      (answered ∷ timed_out ∷ timed_out ∷ [])
      (new_worker_metrics counting (pos 1)))
record_all-IsBounded_example =
    record_all-IsBounded trim counting (pos 1) (answered ∷ timed_out ∷ timed_out ∷ [])

merge_workers-sums_example :
    let a = merge_workers counting workers in
    (a.planned % i64_mod ≡ sum_over counting (λ w. w.planned) workers % i64_mod)
    × (a.scheduled % i64_mod ≡ sum_over counting (λ w. w.scheduled) workers % i64_mod)
    × (a.started % i64_mod ≡ sum_over counting (λ w. w.started) workers % i64_mod)
    × (a.completed % i64_mod ≡ sum_over counting (λ w. w.completed) workers % i64_mod)
    × (a.canceled % i64_mod ≡ sum_over counting (λ w. w.canceled) workers % i64_mod)
    × (a.dropped % i64_mod ≡ sum_over counting (λ w. w.dropped) workers % i64_mod)
    × ((o : Outcome)
        → a.outcomes o % i64_mod ≡ sum_over counting (λ w. w.outcomes o) workers % i64_mod)
    × ((s : ℕ)
        → count_of s a.status_codes % i64_mod
          ≡ sum_over counting (λ w. count_of s w.status_codes) workers % i64_mod)
    × (a.bytes_sent % i64_mod ≡ sum_over counting (λ w. w.bytes_sent) workers % i64_mod)
    × (a.bytes_received % i64_mod ≡ sum_over counting (λ w. w.bytes_received) workers % i64_mod)
    × (a.rate_limits.observed_429_count % i64_mod
        ≡ sum_over counting (λ w. w.rate_limits.observed_429_count) workers % i64_mod)
merge_workers-sums_example = merge_workers-sums counting workers

merge_workers-latencies_example :
    let a = merge_workers counting workers in
    (a.all_latency ≡ sum_over counting (λ w. w.all_latency) workers)
    × (a.success_latency ≡ sum_over counting (λ w. w.success_latency) workers)
merge_workers-latencies_example = merge_workers-latencies counting counting-laws workers
