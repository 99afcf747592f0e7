-- ===== src/Metrics/Merge.antt =====
-- internal/metrics/aggregate.go and segment.go: the records of several workers become one. The
-- fields of the aggregate that are floats (rates and percentiles) are not part of the model, nor are
-- the step workers. A map is folded in the order of its entries.
pub mod Totals
use daegsa.Prelude.{
  ℕ, zero, suc, ◌+◌, Bool, true, false, List, [], ◌∷◌, ◌++◌, Option, none, some, ◌&&◌, ◌||◌, not,
  ltb, ◌==◌, if◌then◌else◌,
}
use daegsa.Prelude.Int.{ℤ, pos, negsuc, ltb_ℤ, leb_ℤ}
use daegsa.Prelude.Word.{add64}
use daegsa.Prelude.Text.{Text, text_eq, itoa}
use daegsa.Prelude.Assoc.{lookup, get_or, insert}
use daegsa.Core.Outcome.{Outcome}
use daegsa.Metrics.Histogram.{HdrLibrary, merge_histogram}
use daegsa.Metrics.Samples.{
  ErrorSample, RateLimitHeaderSample, record_error_sample, merge_error_sample, keep_samples,
  same_header,
}
use daegsa.Metrics.Worker.{
  WorkerMetrics, HeaderConsistency, Consistencies, consistency_of, disagrees,
  add_consistency_sample, add_status, RateLimitObservations,
}

-- One entry of mergeHeaderConsistency of internal/metrics/ratelimit.go.
unfoldable pub add_consistency_samples : List Text → HeaderConsistency → HeaderConsistency
add_consistency_samples [] c = c
add_consistency_samples (s ∷ l) c = add_consistency_samples l (add_consistency_sample s c)

unfoldable pub merge_consistency : HeaderConsistency → HeaderConsistency → HeaderConsistency
merge_consistency incoming current =
    let agreed = if current.observed_count == 0 then true else current.all_parsed_agree in
    add_consistency_samples incoming.samples (record current {
      all_parsed_agree = if not incoming.all_parsed_agree then false else agreed;
      observed_count = add64 current.observed_count incoming.observed_count;
      parse_error_count = add64 current.parse_error_count incoming.parse_error_count;
    })

unfoldable pub merge_header_consistency : Consistencies → Consistencies → Consistencies
merge_header_consistency [] destination = destination
merge_header_consistency ((name, incoming) ∷ source) destination =
    merge_header_consistency source (
      insert text_eq name (merge_consistency incoming (consistency_of name destination))
        destination)

-- `destination[status] += count` for each entry of the source.
unfoldable pub merge_statuses : List (ℕ × ℕ) → List (ℕ × ℕ) → List (ℕ × ℕ)
merge_statuses [] destination = destination
merge_statuses ((status, count) ∷ source) destination =
    merge_statuses source (add_status status count destination)

-- The error samples of mergeWorkerMetrics: each is recorded anew.
unfoldable pub record_error_samples :
    (Text → Text) → List ErrorSample → List ErrorSample → List ErrorSample
record_error_samples trim [] destination = destination
record_error_samples trim (s ∷ source) destination =
    record_error_samples trim source (record_error_sample trim s.message s.class destination)

-- The error samples of MergeWorkers: their counts are added up.
unfoldable pub merge_error_samples : List ErrorSample → List ErrorSample → List ErrorSample
merge_error_samples [] destination = destination
merge_error_samples (s ∷ source) destination =
    merge_error_samples source (merge_error_sample s destination)

-- The earliest of two offsets, where a negative one stands for none.
unfoldable pub earliest : ℤ → ℤ → ℤ
earliest source destination =
    if leb_ℤ (pos 0) source && (ltb_ℤ destination (pos 0) || ltb_ℤ source destination)
    then source
    else destination

unfoldable pub merge_rate_limits :
    RateLimitObservations → RateLimitObservations → RateLimitObservations
merge_rate_limits source destination = record {
  observed_429_count = add64 destination.observed_429_count source.observed_429_count;
  retry_after_samples =
      keep_samples text_eq source.retry_after_samples destination.retry_after_samples;
  rate_limit_headers =
      keep_samples same_header source.rate_limit_headers destination.rate_limit_headers;
  header_consistency =
      merge_header_consistency source.header_consistency destination.header_consistency;
}

module _ (lib : HdrLibrary) where
  -- mergeWorkerMetrics; a merge of two HDR histograms has no error.
  unfoldable pub merge_worker_metrics :
      (Text → Text) → WorkerMetrics lib → WorkerMetrics lib → WorkerMetrics lib
  merge_worker_metrics trim source destination = record destination {
    planned = add64 destination.planned source.planned;
    scheduled = add64 destination.scheduled source.scheduled;
    started = add64 destination.started source.started;
    completed = add64 destination.completed source.completed;
    canceled = add64 destination.canceled source.canceled;
    dropped = add64 destination.dropped source.dropped;
    outcomes = λ o. add64 (destination.outcomes o) (source.outcomes o);
    status_codes = merge_statuses source.status_codes destination.status_codes;
    all_latency = merge_histogram lib destination.all_latency source.all_latency;
    success_latency = merge_histogram lib destination.success_latency source.success_latency;
    bytes_sent = add64 destination.bytes_sent source.bytes_sent;
    bytes_received = add64 destination.bytes_received source.bytes_received;
    error_samples = record_error_samples trim source.error_samples destination.error_samples;
    rate_limits = merge_rate_limits source.rate_limits destination.rate_limits;
    scheduler_lag_max_us =
        if ltb_ℤ destination.scheduler_lag_max_us source.scheduler_lag_max_us
        then source.scheduler_lag_max_us
        else destination.scheduler_lag_max_us;
    first_throttle_offset_ns =
        earliest source.first_throttle_offset_ns destination.first_throttle_offset_ns;
  }

  -- The variables that the loop of MergeWorkers accumulates.
  pub record Aggregate : Type 0 where
    pub planned : ℕ
    pub scheduled : ℕ
    pub started : ℕ
    pub completed : ℕ
    pub canceled : ℕ
    pub dropped : ℕ
    pub outcomes : Outcome → ℕ
    pub status_codes : List (ℕ × ℕ)
    pub all_latency : lib.Hdr
    pub success_latency : lib.Hdr
    pub bytes_sent : ℕ
    pub bytes_received : ℕ
    pub error_samples : List ErrorSample
    pub rate_limits : RateLimitObservations
    pub scheduler_lag_max_us : ℤ
    pub first_throttle_offset_ns : ℤ

  unfoldable pub empty_aggregate : Aggregate
  empty_aggregate = record {
    planned = 0;
    scheduled = 0;
    started = 0;
    completed = 0;
    canceled = 0;
    dropped = 0;
    outcomes = λ _. 0;
    status_codes = [];
    all_latency = lib.new;
    success_latency = lib.new;
    bytes_sent = 0;
    bytes_received = 0;
    error_samples = [];
    rate_limits = record {
      observed_429_count = 0;
      retry_after_samples = [];
      rate_limit_headers = [];
      header_consistency = [];
    };
    scheduler_lag_max_us = pos 0;
    first_throttle_offset_ns = negsuc 0;
  }

  -- One round of the loop over the workers.
  unfoldable pub add_worker : WorkerMetrics lib → Aggregate → Aggregate
  add_worker w a = record {
    planned = add64 a.planned w.planned;
    scheduled = add64 a.scheduled w.scheduled;
    started = add64 a.started w.started;
    completed = add64 a.completed w.completed;
    canceled = add64 a.canceled w.canceled;
    dropped = add64 a.dropped w.dropped;
    outcomes = λ o. add64 (a.outcomes o) (w.outcomes o);
    status_codes = merge_statuses w.status_codes a.status_codes;
    all_latency = merge_histogram lib a.all_latency w.all_latency;
    success_latency = merge_histogram lib a.success_latency w.success_latency;
    bytes_sent = add64 a.bytes_sent w.bytes_sent;
    bytes_received = add64 a.bytes_received w.bytes_received;
    error_samples = merge_error_samples w.error_samples a.error_samples;
    rate_limits = merge_rate_limits w.rate_limits a.rate_limits;
    scheduler_lag_max_us =
        if ltb_ℤ a.scheduler_lag_max_us w.scheduler_lag_max_us
        then w.scheduler_lag_max_us
        else a.scheduler_lag_max_us;
    first_throttle_offset_ns = earliest w.first_throttle_offset_ns a.first_throttle_offset_ns;
  }

  -- `none` is a nil worker, which is passed over.
  pub add_workers : List (Option (WorkerMetrics lib)) → Aggregate → Aggregate
  add_workers [] a = a
  add_workers (none ∷ l) a = add_workers l a
  add_workers (some w ∷ l) a = add_workers l (add_worker w a)

  unfoldable pub merge_workers : List (Option (WorkerMetrics lib)) → Aggregate
  unfolding add_workers
  merge_workers workers = add_workers workers empty_aggregate
