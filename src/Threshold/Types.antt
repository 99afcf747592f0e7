-- ===== src/Threshold/Types.antt =====
-- internal/threshold/types.go: the canonical metrics with their categories, the operators, and a
-- parsed threshold. A canonical metric is a constructor, and its name the string of the source.
use daegsa.Prelude.{Bool, List, [], ◌∷◌, Option, none, some, if◌then◌else◌}
use daegsa.Prelude.Float.{Floats}
use daegsa.Prelude.Text.{Text, codes, text_eq}

pub data MetricCategory : Type 0 where
  rate latency throughput count concurrency : MetricCategory

pub data Metric : Type 0 where
  http_error_rate rate_limited_rate dropped_rate : Metric
  p50 p90 p95 p99 p999 min_latency max_latency mean_latency : Metric
  completed_rps started_rps target_rps : Metric
  dropped_requests failed_requests completed_requests canceled_requests : Metric
  max_in_flight : Metric

abbrev pub metric_name : Metric → Text
metric_name http_error_rate = codes "http_error_rate"
metric_name rate_limited_rate = codes "rate_limited_rate"
metric_name dropped_rate = codes "dropped_rate"
metric_name p50 = codes "p50"
metric_name p90 = codes "p90"
metric_name p95 = codes "p95"
metric_name p99 = codes "p99"
metric_name p999 = codes "p99.9"
metric_name min_latency = codes "min_latency"
metric_name max_latency = codes "max_latency"
metric_name mean_latency = codes "mean_latency"
metric_name completed_rps = codes "completed_rps"
metric_name started_rps = codes "started_rps"
metric_name target_rps = codes "target_rps"
metric_name dropped_requests = codes "dropped_requests"
metric_name failed_requests = codes "failed_requests"
metric_name completed_requests = codes "completed_requests"
metric_name canceled_requests = codes "canceled_requests"
metric_name max_in_flight = codes "max_in_flight"

-- CanonicalMetricCategories.
unfoldable pub category_of : Metric → MetricCategory
category_of http_error_rate = rate
category_of rate_limited_rate = rate
category_of dropped_rate = rate
category_of p50 = latency
category_of p90 = latency
category_of p95 = latency
category_of p99 = latency
category_of p999 = latency
category_of min_latency = latency
category_of max_latency = latency
category_of mean_latency = latency
category_of completed_rps = throughput
category_of started_rps = throughput
category_of target_rps = throughput
category_of dropped_requests = count
category_of failed_requests = count
category_of completed_requests = count
category_of canceled_requests = count
category_of max_in_flight = concurrency

abbrev pub all_canonical_metrics : List Metric
all_canonical_metrics =
    http_error_rate ∷ rate_limited_rate ∷ dropped_rate ∷ p50 ∷ p90 ∷ p95 ∷ p99 ∷ p999 ∷ min_latency
    ∷ max_latency ∷ mean_latency ∷ completed_rps ∷ started_rps ∷ target_rps ∷ dropped_requests
    ∷ failed_requests ∷ completed_requests ∷ canceled_requests ∷ max_in_flight ∷ []

abbrev pub metric_among : Text → List Metric → Option Metric
metric_among name [] = none
metric_among name (m ∷ l) = if text_eq name (metric_name m) then some m else metric_among name l

-- The canonical metric of a name, as the map of categories and the switch of the evaluator find it.
unfoldable pub metric_named : Text → Option Metric
metric_named name = metric_among name all_canonical_metrics

abbrev pub op_lt : Text
op_lt = codes "<"

abbrev pub op_lte : Text
op_lte = codes "<="

abbrev pub op_gt : Text
op_gt = codes ">"

abbrev pub op_gte : Text
op_gte = codes ">="

abbrev pub op_eq : Text
op_eq = codes "=="

abbrev pub op_ne : Text
op_ne = codes "!="

module _ (floats : Floats) where
  pub record Threshold : Type 0 where
    pub metric_name : Text
    pub step_name : Text
    pub category : MetricCategory
    pub operator : Text
    pub target_raw : Text
    pub target_value : floats.Float
    pub unit : Text
    pub raw_expression : Text

  -- Result: the evaluation of one threshold. The threshold is `none` for a nil pointer.
  pub record Evaluation : Type 0 where
    pub threshold : Option Threshold
    pub metric_name : Text
    pub operator : Text
    pub target_formatted : Text
    pub observed_value : floats.Float
    pub observed_formatted : Text
    pub passed : Bool
