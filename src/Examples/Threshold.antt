-- ===== src/Examples/Threshold.antt =====
-- Thresholds parsed and evaluated, over whole numbers.
use daegsa.Prelude.{
  true, false, [], ◌∷◌, map, Option, none, some, not, ◌≡◌, ◌↔◌, refl, arith, All, is_empty,
  if◌then◌else◌,
}
use daegsa.Prelude.Int.{ℤ, pos}
use daegsa.Prelude.Text.{Text, codes, text_eq}
use daegsa.Prelude.Strings.{Unicode, is_space, trim_space}
use daegsa.Prelude.Result.{Result, ok, err}
use daegsa.Threshold.Types.{
  rate, Metric, metric_named, category_of, Threshold, op_lt, op_lte, op_gt, op_gte, op_eq, op_ne,
}
use daegsa.Threshold.Evaluate.{
  MetricsSnapshot, EvaluationContext, zero_snapshot, compare_values, evaluate_one,
  evaluate_with_steps, metric_to_extract,
}
use daegsa.Threshold.Evaluate.Outcomes.{
  present, Passed, IsTotal, compare_values-complement, evaluate_with_steps-verdict,
}
use daegsa.Threshold.Parse.{
  ThresholdError, step_parts, parse_metric, parse_rate, parse_latency, parse_target_value,
  parse_expression, parse_threshold,
}
use daegsa.Threshold.Parse.Shape.{SplitsAs}
use daegsa.Threshold.Parse.Measured.{
  parse_threshold-metric_to_extract, parse_threshold-SplitsAs, parse_threshold-rate_range,
}
use daegsa.Examples.Profile.{whole}

abbrev ascii : Unicode
ascii = record { lower_rune = λ c. c; upper_rune = λ c. c; is_space_rune = λ _. false }

-- The one number that is read, and the one text that is printed.
abbrev parse_one : Text → Option ℤ
parse_one s = if text_eq s (codes "1") then some (pos 1) else none

abbrev print_one : ℤ → Text
print_one _ = codes "1.00"

abbrev empty_threshold : Threshold whole
empty_threshold = record {
  metric_name = [];
  step_name = [];
  category = rate;
  operator = [];
  target_raw = [];
  target_value = pos 0;
  unit = [];
  raw_expression = [];
}

abbrev threshold_of : Result ThresholdError (Threshold whole) → Threshold whole
threshold_of (ok t) = t
threshold_of (err _) = empty_threshold

abbrev step_latency : Threshold whole
unfolding parse_threshold
step_latency =
    threshold_of
      (parse_threshold ascii whole parse_one parse_one (codes "step.a.p95") (codes " <= 1 s "))

abbrev errors : Threshold whole
unfolding parse_threshold
errors =
    threshold_of
      (parse_threshold ascii whole parse_one parse_one (codes "http_error_rate") (codes "<1%"))

step_latency-ok :
    parse_threshold ascii whole parse_one parse_one (codes "step.a.p95") (codes " <= 1 s ")
    ≡ ok step_latency
unfolding parse_threshold is_space parse_metric step_parts metric_named parse_expression
    parse_target_value category_of parse_latency
step_latency-ok = refl

errors-ok :
    parse_threshold ascii whole parse_one parse_one (codes "http_error_rate") (codes "<1%")
    ≡ ok errors
unfolding parse_threshold is_space parse_metric metric_named parse_expression parse_target_value
    category_of parse_rate
errors-ok = refl

errors-category : errors.category ≡ rate
unfolding parse_threshold is_space parse_metric metric_named parse_expression parse_target_value
    category_of parse_rate
errors-category = refl

parse_threshold-metric_to_extract_example :
    (m : Metric) × (metric_named (metric_to_extract whole print_one step_latency) ≡ some m)
    × (category_of m ≡ step_latency.category)
unfolding is_space
parse_threshold-metric_to_extract_example =
    parse_threshold-metric_to_extract ascii whole parse_one parse_one print_one (codes "step.a.p95")
      (codes " <= 1 s ")
      (refl, (refl, (refl, (refl, (refl, (refl, (refl, (refl, (refl, (refl, tt))))))))))
      step_latency-ok

parse_threshold-SplitsAs_example :
    (rest : Text) × SplitsAs (trim_space ascii (codes " <= 1 s ")) step_latency.operator rest
    × (step_latency.target_raw ≡ trim_space ascii rest)
    × (is_empty step_latency.target_raw ≡ false)
parse_threshold-SplitsAs_example =
    parse_threshold-SplitsAs ascii whole parse_one parse_one (codes "step.a.p95") (codes " <= 1 s ")
      step_latency-ok

parse_threshold-rate_range_example :
    (whole.lt errors.target_value (pos 0) ≡ false)
    × (whole.lt (pos 100) errors.target_value ≡ false)
parse_threshold-rate_range_example =
    parse_threshold-rate_range ascii whole parse_one parse_one (codes "http_error_rate")
      (codes "<1%") errors-ok errors-category

whole-IsTotal : IsTotal whole
whole-IsTotal = record { lt_not_le = λ a b ha hb. ground arith }

compare_values-complement_example :
    let holds = compare_values whole (pos 3) (pos 5) in
    (holds op_lt ≡ not (holds op_gte))
    × (holds op_gt ≡ not (holds op_lte))
    × (holds op_ne ≡ not (holds op_eq))
compare_values-complement_example =
    compare_values-complement whole whole-IsTotal (pos 3) (pos 5) refl refl refl refl refl

abbrev snapshot : MetricsSnapshot whole
snapshot = record (zero_snapshot whole) { error_rate = pos 2; completed_requests = pos 50 }

abbrev context : EvaluationContext whole
context = record { target_rps = pos 10; max_in_flight = pos 5 }

evaluate_with_steps-verdict_example :
    let v =
      evaluate_with_steps whole print_one
        (some errors ∷ none ∷ some step_latency ∷ [])
        snapshot
        none
        context in
    (v.results
      ≡ map
          (evaluate_one whole print_one snapshot none context)
          (present (some errors ∷ none ∷ some step_latency ∷ [])))
    × ((v.all_passed ≡ true) ↔ All (Passed whole) v.results)
evaluate_with_steps-verdict_example =
    evaluate_with_steps-verdict whole print_one (some errors ∷ none ∷ some step_latency ∷ [])
      snapshot none context
