-- ===== src/Threshold/Parse.antt =====
-- internal/threshold/parser.go. strconv.ParseFloat and ParseInt are the parameters `parse_float` and
-- `parse_int`, and sort.Strings on the keys of a map is the parameter `sorted`.
pub mod Shape
pub mod Spaces
pub mod Measured
use daegsa.Prelude.{
  ℕ, Bool, true, false, List, [], ◌∷◌, Option, none, some, ◌||◌, not, is_empty, if◌then◌else◌,
}
use daegsa.Prelude.Int.{ℤ, pos, ltb_ℤ}
use daegsa.Prelude.Float.{Floats}
use daegsa.Prelude.Text.{Text, codes, text_eq, strip_prefix, has_prefix}
use daegsa.Prelude.Strings.{Unicode, trim_space, has_suffix, contains_any, split_on}
use daegsa.Prelude.Result.{Result, ok, err, ◌>>=◌}
use daegsa.Threshold.Types.{
  MetricCategory, rate, latency, throughput, count, concurrency, metric_named, category_of,
  Threshold, op_lt, op_lte, op_gt, op_gte, op_eq, op_ne,
}

pub data ThresholdError : Type 0 where
  empty_metric bad_step_syntax empty_step unknown_metric empty_expression : ThresholdError
  no_operator no_target wrong_unit invalid_number out_of_range : ThresholdError

-- A missing value is an error.
abbrev pub required {ℓ} : {A : Type ℓ} → ThresholdError → Option A → Result ThresholdError A
required e none = err e
required e (some a) = ok a

abbrev keep_char : ℕ → Option Text → Option Text
keep_char c none = none
keep_char c (some s) = some (c ∷ s)

-- strings.TrimSuffix of a text that has the suffix.
abbrev pub strip_suffix : Text → Text → Option Text
strip_suffix [] p = if text_eq [] p then some [] else none
strip_suffix (c ∷ s) p =
    let rest = keep_char c (strip_suffix s p) in if text_eq (c ∷ s) p then some [] else rest

-- The operators in the order of the switch, longer ones first.
abbrev pub operators : List Text
operators = op_lte ∷ op_gte ∷ op_eq ∷ op_ne ∷ op_lt ∷ op_gt ∷ []

abbrev pub operator_or : Text → Option Text → Option (Text × Text) → Option (Text × Text)
operator_or op none next = next
operator_or op (some rest) next = some (op, rest)

-- The first operator of the list that the expression begins with, and what follows it.
abbrev pub operator_among : List Text → Text → Option (Text × Text)
operator_among [] expr = none
operator_among (op ∷ l) expr = operator_or op (strip_prefix expr op) (operator_among l expr)

-- The code points of "µs".
abbrev micro_seconds : Text
micro_seconds = 181 ∷ codes "s"

module _ (unicode : Unicode) where
  -- The parts of a metric with the prefix "step.".
  unfoldable pub step_parts : List Text → Result ThresholdError (Text × Text)
  step_parts (prefix ∷ step ∷ metric ∷ []) =
      if not (text_eq prefix (codes "step"))
      then err bad_step_syntax
      else if is_empty (trim_space unicode step) || is_empty (trim_space unicode metric)
      then err empty_step
      else ok (trim_space unicode step, trim_space unicode metric)
  step_parts _ = err bad_step_syntax

  -- The name of the step, empty for none, and the metric.
  unfoldable pub parse_metric : Text → Result ThresholdError (Text × Text)
  parse_metric trimmed =
      if has_prefix trimmed (codes "step.")
      then step_parts (split_on b'.' trimmed)
      else ok ([], trimmed)

  module _ (floats : Floats) where
    open floats use {Float, of_int, mul, div, lt}

    module _ (parse_float : Text → Option Float) (parse_int : Text → Option ℤ) where
      unfoldable pub parse_rate : Text → Result ThresholdError (Float × Text)
      parse_rate target = required wrong_unit (strip_suffix target (codes "%")) >>= λ num.
          required invalid_number (parse_float (trim_space unicode num)) >>= λ val.
          if lt val (of_int (pos 0)) || lt (of_int (pos 100)) val
          then err out_of_range
          else ok (val, codes "%")

      abbrev latency_units : List (Text × Text × Float)
      latency_units =
          (codes "ms", codes "ms", of_int (pos 1))
          ∷ (micro_seconds, micro_seconds, div (of_int (pos 1)) (of_int (pos 1000)))
          ∷ (codes "us", micro_seconds, div (of_int (pos 1)) (of_int (pos 1000)))
          ∷ (codes "s", codes "s", of_int (pos 1000))
          ∷ []

      abbrev unit_or :
          Text → Float → Option Text → Option (Text × Text × Float) → Option (Text × Text × Float)
      unit_or unit multiplier none next = next
      unit_or unit multiplier (some num) next = some (num, unit, multiplier)

      -- The number before the first suffix of the list that the text has, the unit and the factor.
      abbrev unit_among : List (Text × Text × Float) → Text → Option (Text × Text × Float)
      unit_among [] target = none
      unit_among ((suffix, unit, multiplier) ∷ l) target =
          unit_or unit multiplier (strip_suffix target suffix) (unit_among l target)

      unfoldable pub parse_latency : Text → Result ThresholdError (Float × Text)
      parse_latency target =
          if has_suffix target (codes "%")
            || has_suffix target (codes "req/s")
            || has_suffix target (codes "rps")
          then err wrong_unit
          else (required wrong_unit (unit_among latency_units target) >>= λ (num, unit, multiplier).
              required invalid_number (parse_float (trim_space unicode num)) >>= λ val.
              if lt val (of_int (pos 0)) then err out_of_range else ok (mul val multiplier, unit))

      -- The number of a throughput, without its unit.
      abbrev throughput_number : Text → Option Text → Option Text → Text
      throughput_number target (some num) _ = trim_space unicode num
      throughput_number target none (some num) = trim_space unicode num
      throughput_number target none none = target

      unfoldable pub parse_throughput : Text → Result ThresholdError (Float × Text)
      parse_throughput target =
          if has_suffix target (codes "%")
            || has_suffix target (codes "ms")
            || has_suffix target micro_seconds
            || has_suffix target (codes "us")
          then err wrong_unit
          else (required invalid_number (
                parse_float (
                  throughput_number target (strip_suffix target (codes "req/s"))
                    (strip_suffix target (codes "rps"))))
              >>= λ val.
                  if lt val (of_int (pos 0)) then err out_of_range else ok (val, codes "req/s"))

      abbrev not_in_integers : Text
      not_in_integers = 181 ∷ codes ".%abcdefghijklmnopqrstuvwxyzABCDEFGHIJKLMNOPQRSTUVWXYZ"

      unfoldable pub parse_count : Text → Result ThresholdError (Float × Text)
      parse_count target =
          if contains_any target not_in_integers
          then err wrong_unit
          else (required invalid_number (parse_int target) >>= λ val.
              if ltb_ℤ val (pos 0) then err out_of_range else ok (of_int val, []))

      unfoldable pub parse_target_value :
          MetricCategory → Text → Result ThresholdError (Float × Text)
      parse_target_value rate target = parse_rate target
      parse_target_value latency target = parse_latency target
      parse_target_value throughput target = parse_throughput target
      parse_target_value count target = parse_count target
      parse_target_value concurrency target = parse_count target

      -- What follows the lookup of the category.
      unfoldable pub parse_expression :
          Text → Text → MetricCategory → Text → Result ThresholdError (Threshold floats)
      parse_expression trimmed_metric step category trimmed_expr =
          if is_empty trimmed_expr
          then err empty_expression
          else (required no_operator (operator_among operators trimmed_expr) >>= λ (op, rest).
              if is_empty (trim_space unicode rest)
              then err no_target
              else (parse_target_value category (trim_space unicode rest) >>= λ (value, unit).
                  ok (record {
                    metric_name = trimmed_metric;
                    step_name = step;
                    category = category;
                    operator = op;
                    target_raw = trim_space unicode rest;
                    target_value = value;
                    unit = unit;
                    raw_expression = trimmed_expr;
                  })))

      unfoldable pub parse_threshold : Text → Text → Result ThresholdError (Threshold floats)
      parse_threshold metric_name expr =
          let trimmed_metric = trim_space unicode metric_name in
          if is_empty trimmed_metric
          then err empty_metric
          else (parse_metric trimmed_metric >>= λ (step, canonical).
              required unknown_metric (metric_named canonical) >>= λ metric.
              parse_expression trimmed_metric step (category_of metric) (trim_space unicode expr))

      pub parse_all : List (Text × Text) → Result ThresholdError (List (Threshold floats))
      parse_all [] = ok []
      parse_all ((key, expr) ∷ l) =
          parse_threshold key expr >>= λ t. parse_all l >>= λ ts. ok (t ∷ ts)

      -- ParseThresholds: the map's entries are read in the order of their keys.
      unfoldable pub parse_thresholds :
          (List (Text × Text) → List (Text × Text))
          → List (Text × Text)
          → Result ThresholdError (List (Threshold floats))
      unfolding parse_all
      parse_thresholds sorted threshold_map = parse_all (sorted threshold_map)
