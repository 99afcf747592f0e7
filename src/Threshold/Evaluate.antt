-- ===== src/Threshold/Evaluate.antt =====
-- internal/threshold/evaluator.go. fmt's "%.2f" is the parameter `fixed2`.
pub mod Outcomes
use daegsa.Prelude.{
  ℕ, suc, Bool, true, false, List, [], ◌∷◌, ◌++◌, map, Option, none, some, not, is_empty,
  if◌then◌else◌, ◌==◌,
}
use daegsa.Prelude.Int.{ℤ, pos, negsuc, ◌+ℤ◌, ◌-ℤ◌, ltb_ℤ}
use daegsa.Prelude.Word.{wrap64}
use daegsa.Prelude.Float.{Floats}
use daegsa.Prelude.Text.{Text, codes, text_eq, itoa}
use daegsa.Prelude.Assoc.{lookup, get_or}
use daegsa.Threshold.Types.{
  MetricCategory, Metric, http_error_rate, rate_limited_rate, dropped_rate, p50, p90, p95, p99,
  p999, min_latency, max_latency, mean_latency, completed_rps, started_rps, target_rps,
  dropped_requests, failed_requests, completed_requests, canceled_requests, max_in_flight,
  metric_named, op_lt, op_lte, op_gt, op_gte, op_eq, op_ne, Threshold, Evaluation,
}

-- "%d" of an int64.
abbrev pub int_text : ℤ → Text
int_text (pos n) = itoa n
int_text (negsuc n) = b'-' ∷ itoa (suc n)

-- What follows the last `d` of a text, by strings.LastIndex.
abbrev pub after_last : ℕ → Text → Option Text
after_last d [] = none
after_last d (c ∷ s) = elim (after_last d s) [
  | some rest ↦ some rest
  | none ↦ if c == d then some s else none
]

module _ (floats : Floats) where
  open floats use {Float, of_int, add, sub, mul, div, lt, le, abs}

  pub record MetricsSnapshot : Type 0 where
    pub planned_requests : ℤ
    pub scheduled_requests : ℤ
    pub started_requests : ℤ
    pub completed_requests : ℤ
    pub canceled_requests : ℤ
    pub dropped_requests : ℤ
    pub successful_requests : ℤ
    pub min_latency_ms : Float
    pub max_latency_ms : Float
    pub mean_latency_ms : Float
    pub p50_latency_ms : Float
    pub p90_latency_ms : Float
    pub p95_latency_ms : Float
    pub p99_latency_ms : Float
    pub p999_latency_ms : Float
    pub achieved_start_rps : Float
    pub completed_throughput : Float
    pub error_rate : Float
    pub rate_limited_rate : Float

  abbrev zero_float : Float
  zero_float = of_int (pos 0)

  -- MetricsSnapshot{}
  abbrev pub zero_snapshot : MetricsSnapshot
  zero_snapshot = record {
    planned_requests = pos 0;
    scheduled_requests = pos 0;
    started_requests = pos 0;
    completed_requests = pos 0;
    canceled_requests = pos 0;
    dropped_requests = pos 0;
    successful_requests = pos 0;
    min_latency_ms = zero_float;
    max_latency_ms = zero_float;
    mean_latency_ms = zero_float;
    p50_latency_ms = zero_float;
    p90_latency_ms = zero_float;
    p95_latency_ms = zero_float;
    p99_latency_ms = zero_float;
    p999_latency_ms = zero_float;
    achieved_start_rps = zero_float;
    completed_throughput = zero_float;
    error_rate = zero_float;
    rate_limited_rate = zero_float;
  }

  pub record EvaluationContext : Type 0 where
    pub target_rps : Float
    pub max_in_flight : ℤ

  -- 1e-9, the correctly rounded quotient.
  abbrev pub float_epsilon : Float
  float_epsilon = div (of_int (pos 1)) (of_int (pos 1_000_000_000))

  unfoldable pub compare_values : Float → Float → Text → Bool
  compare_values observed target op =
      if text_eq op op_lt
      then lt observed (sub target float_epsilon)
      else if text_eq op op_lte
      then le observed (add target float_epsilon)
      else if text_eq op op_gt
      then lt (add target float_epsilon) observed
      else if text_eq op op_gte
      then le (sub target float_epsilon) observed
      else if text_eq op op_eq
      then le (abs (sub observed target)) float_epsilon
      else if text_eq op op_ne
      then lt float_epsilon (abs (sub observed target))
      else false

  -- The share of dropped requests among the planned ones, or among those started or dropped.
  unfoldable pub dropped_percentage : MetricsSnapshot → Float
  dropped_percentage snap =
      let total_scheduled = wrap64 (snap.started_requests +ℤ snap.dropped_requests) in
      if ltb_ℤ (pos 0) snap.planned_requests
      then mul (div (of_int snap.dropped_requests) (of_int snap.planned_requests))
          (of_int (pos 100))
      else if ltb_ℤ (pos 0) total_scheduled
      then mul (div (of_int snap.dropped_requests) (of_int total_scheduled)) (of_int (pos 100))
      else zero_float

  unfoldable pub failed_count : MetricsSnapshot → ℤ
  failed_count snap =
      let failed = wrap64 (snap.completed_requests -ℤ snap.successful_requests) in
      if ltb_ℤ failed (pos 0) then pos 0 else failed

  module _ (fixed2 : Float → Text) where
    abbrev with_unit : Text → Float → Float × Text
    with_unit unit v = (v, fixed2 v ++ unit)

    abbrev as_count : ℤ → Float × Text
    as_count n = (of_int n, int_text n)

    unfoldable pub observe_metric : Metric → MetricsSnapshot → EvaluationContext → Float × Text
    unfolding failed_count dropped_percentage
    observe_metric http_error_rate snap ctx = with_unit (codes "%") snap.error_rate
    observe_metric rate_limited_rate snap ctx = with_unit (codes "%") snap.rate_limited_rate
    observe_metric dropped_rate snap ctx = with_unit (codes "%") (dropped_percentage snap)
    observe_metric p50 snap ctx = with_unit (codes "ms") snap.p50_latency_ms
    observe_metric p90 snap ctx = with_unit (codes "ms") snap.p90_latency_ms
    observe_metric p95 snap ctx = with_unit (codes "ms") snap.p95_latency_ms
    observe_metric p99 snap ctx = with_unit (codes "ms") snap.p99_latency_ms
    observe_metric p999 snap ctx = with_unit (codes "ms") snap.p999_latency_ms
    observe_metric min_latency snap ctx = with_unit (codes "ms") snap.min_latency_ms
    observe_metric max_latency snap ctx = with_unit (codes "ms") snap.max_latency_ms
    observe_metric mean_latency snap ctx = with_unit (codes "ms") snap.mean_latency_ms
    observe_metric completed_rps snap ctx = with_unit (codes " req/s") snap.completed_throughput
    observe_metric started_rps snap ctx = with_unit (codes " req/s") snap.achieved_start_rps
    observe_metric target_rps snap ctx = with_unit (codes " req/s") ctx.target_rps
    observe_metric dropped_requests snap ctx = as_count snap.dropped_requests
    observe_metric failed_requests snap ctx = as_count (failed_count snap)
    observe_metric completed_requests snap ctx = as_count snap.completed_requests
    observe_metric canceled_requests snap ctx = as_count snap.canceled_requests
    observe_metric max_in_flight snap ctx = as_count ctx.max_in_flight

    abbrev pub observe_or_zero : Option Metric → MetricsSnapshot → EvaluationContext → Float × Text
    observe_or_zero none snap ctx = (zero_float, codes "0")
    observe_or_zero (some m) snap ctx = observe_metric m snap ctx

    unfoldable pub extract_observed : Text → MetricsSnapshot → EvaluationContext → Float × Text
    extract_observed name snap ctx = observe_or_zero (metric_named name) snap ctx

    -- The snapshot that a threshold is measured on; without step snapshots `none` is a nil map.
    abbrev pub step_snapshot : Text → Option (List (Text × MetricsSnapshot)) → MetricsSnapshot
    step_snapshot step none = zero_snapshot
    step_snapshot step (some snaps) = get_or text_eq zero_snapshot (lookup text_eq step snaps)

    unfoldable pub snapshot_to_use :
        Threshold floats
        → MetricsSnapshot
        → Option (List (Text × MetricsSnapshot))
        → MetricsSnapshot
    snapshot_to_use t root_snap step_snaps =
        if is_empty t.step_name then root_snap else step_snapshot t.step_name step_snaps

    abbrev pub suffix_or : Text → Option Text → Text
    suffix_or name none = name
    suffix_or name (some suffix) = suffix

    unfoldable pub metric_to_extract : Threshold floats → Text
    metric_to_extract t =
        if is_empty t.step_name
        then t.metric_name
        else suffix_or t.metric_name (after_last b'.' t.metric_name)

    abbrev pub target_text : Threshold floats → Text
    target_text t =
        if is_empty t.raw_expression
        then t.operator ++ codes " " ++ t.target_raw
        else t.raw_expression

    -- The body of the loop for a threshold that is not nil.
    unfoldable pub evaluate_one :
        MetricsSnapshot
        → Option (List (Text × MetricsSnapshot))
        → EvaluationContext
        → Threshold floats
        → Evaluation floats
    unfolding metric_to_extract snapshot_to_use
    evaluate_one root_snap step_snaps ctx t =
        let observed =
          extract_observed (metric_to_extract t) (snapshot_to_use t root_snap step_snaps) ctx in
        record {
          threshold = some t;
          metric_name = t.metric_name;
          operator = t.operator;
          target_formatted = target_text t;
          observed_value = observed.0;
          observed_formatted = observed.1;
          passed = compare_values observed.0 t.target_value t.operator;
        }

    pub record Verdict : Type 0 where
      pub results : List (Evaluation floats)
      pub all_passed : Bool

    -- The loop over the thresholds, of which `none` is a nil pointer.
    unfoldable pub evaluate_rest :
        MetricsSnapshot
        → Option (List (Text × MetricsSnapshot))
        → EvaluationContext
        → List (Option (Threshold floats))
        → Verdict
        → Verdict
    evaluate_rest root_snap step_snaps ctx [] v = v
    evaluate_rest root_snap step_snaps ctx (none ∷ l) v = evaluate_rest root_snap step_snaps ctx l v
    evaluate_rest root_snap step_snaps ctx (some t ∷ l) v =
        let r = evaluate_one root_snap step_snaps ctx t in
        evaluate_rest root_snap step_snaps ctx l (record {
          results = v.results ++ r ∷ [];
          all_passed = if not r.passed then false else v.all_passed;
        })

    unfoldable pub evaluate_with_steps :
        List (Option (Threshold floats))
        → MetricsSnapshot
        → Option (List (Text × MetricsSnapshot))
        → EvaluationContext
        → Verdict
    unfolding evaluate_rest
    evaluate_with_steps thresholds root_snap step_snaps ctx =
        if is_empty thresholds
        then record { results = []; all_passed = true }
        else evaluate_rest root_snap step_snaps ctx thresholds
            (record { results = []; all_passed = true })

    -- Evaluate
    unfoldable pub evaluate :
        List (Option (Threshold floats)) → MetricsSnapshot → EvaluationContext → Verdict
    evaluate thresholds snap ctx = evaluate_with_steps thresholds snap none ctx
