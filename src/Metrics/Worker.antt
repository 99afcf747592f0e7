-- ===== src/Metrics/Worker.antt =====
-- internal/metrics/worker.go: what one worker records. The counters are the bit patterns of int64.
-- The outcome map holds the twelve outcomes from the start, so it is a function; the map of status
-- codes is a list of its entries. `StepWorkers` and `ScenarioIterations` stand beside the accumulators
-- and not in them, and the largest lag, a float of milliseconds, is kept in whole microseconds.
pub mod Accounting
pub mod Bounded
use daegsa.Prelude.{
  ℕ, suc, ◌+◌, Bool, true, false, List, [], ◌∷◌, ◌++◌, Option, none, some, ◌&&◌, ◌||◌, not,
  is_empty, ltb, leb, ◌==◌, if◌then◌else◌,
}
use daegsa.Prelude.Int.{ℤ, pos, negsuc, pos_part, ltb_ℤ, quot}
use daegsa.Prelude.Word.{add64, inc64}
use daegsa.Prelude.Text.{Text, codes, text_eq, itoa, is_some}
use daegsa.Prelude.Assoc.{lookup, get_or, insert}
use daegsa.Core.Outcome.{
  Outcome, success, unexpected_status, rate_limited, timeout, dns_error, connect_error, tls_error,
  request_build_error, response_body_error, canceled, other_transport_error, dropped, is_success,
  too_many_requests,
}
use daegsa.Metrics.Histogram.{HdrLibrary, record_latency}
use daegsa.Metrics.Samples.{
  ErrorSample, RateLimitHeaderSample, record_error_sample, keep_sample, same_header,
  max_rate_limit_samples, contains_string,
}

-- executor.RateLimitInfo: the numbers and dates are given as the texts that the samples print.
pub record RateLimitInfo : Type 0 where
  pub retry_after_seconds : Option Text
  pub retry_after_date : Option Text
  pub limit : Option Text
  pub remaining : Option Text
  pub reset_seconds : Option Text
  pub reset_date : Option Text
  pub policy : Text
  pub header_observations : List (Text × Bool × Bool × Text)

-- executor.Result, as far as a worker reads it. A duration is in nanoseconds, and the error is its
-- message.
pub record Result : Type 0 where
  pub outcome : Outcome
  pub status_code : ℕ
  pub latency : ℤ
  pub ttfb : ℤ
  pub bytes_sent : ℕ
  pub bytes_received : ℕ
  pub rate_limit_info : Option RateLimitInfo
  pub err : Option Text

pub record HeaderConsistency : Type 0 where
  pub observed_count : ℕ
  pub parse_error_count : ℕ
  pub all_parsed_agree : Bool
  pub samples : List Text

pub record RateLimitObservations : Type 0 where
  pub observed_429_count : ℕ
  pub retry_after_samples : List Text
  pub rate_limit_headers : List RateLimitHeaderSample
  pub header_consistency : List (Text × HeaderConsistency)

module _ (lib : HdrLibrary) where
  pub record WorkerMetrics : Type 0 where
    pub worker_id : ℤ
    pub planned : ℕ
    pub scheduled : ℕ
    pub started : ℕ
    pub completed : ℕ
    pub canceled : ℕ
    pub dropped : ℕ
    pub outcomes : Outcome → ℕ
    pub status_codes : List (ℕ × ℕ)
    pub all_latency : lib.Hdr
    pub success_latency : lib.Hdr
    pub ttfb_sum_microseconds : ℕ
    pub ttfb_count : ℕ
    pub bytes_sent : ℕ
    pub bytes_received : ℕ
    pub error_samples : List ErrorSample
    pub rate_limits : RateLimitObservations
    pub scheduler_lag_max_us : ℤ
    pub first_throttle_offset_ns : ℤ

abbrev pub outcome_index : Outcome → ℕ
outcome_index success = 0
outcome_index unexpected_status = 1
outcome_index rate_limited = 2
outcome_index timeout = 3
outcome_index dns_error = 4
outcome_index connect_error = 5
outcome_index tls_error = 6
outcome_index request_build_error = 7
outcome_index response_body_error = 8
outcome_index canceled = 9
outcome_index other_transport_error = 10
outcome_index dropped = 11

-- The string of an outcome.
abbrev pub outcome_text : Outcome → Text
outcome_text success = codes "success"
outcome_text unexpected_status = codes "unexpected_status"
outcome_text rate_limited = codes "rate_limited"
outcome_text timeout = codes "timeout"
outcome_text dns_error = codes "dns_error"
outcome_text connect_error = codes "connect_error"
outcome_text tls_error = codes "tls_error"
outcome_text request_build_error = codes "request_build_error"
outcome_text response_body_error = codes "response_body_error"
outcome_text canceled = codes "canceled"
outcome_text other_transport_error = codes "other_transport_error"
outcome_text dropped = codes "dropped"

abbrev pub same_outcome : Outcome → Outcome → Bool
same_outcome a b = outcome_index a == outcome_index b

-- `Outcomes[outcome] += n`
unfoldable pub add_outcome : Outcome → ℕ → (Outcome → ℕ) → Outcome → ℕ
add_outcome outcome n outcomes o =
    if same_outcome o outcome then add64 (outcomes o) n else outcomes o

-- `StatusCodes[status] += n`
unfoldable pub add_status : ℕ → ℕ → List (ℕ × ℕ) → List (ℕ × ℕ)
add_status status n [] = (status, add64 0 n) ∷ []
add_status status n ((s, count) ∷ rest) =
    if s == status then (s, add64 count n) ∷ rest else (s, count) ∷ add_status status n rest

abbrev pub no_consistency : HeaderConsistency
no_consistency = record {
  observed_count = 0;
  parse_error_count = 0;
  all_parsed_agree = false;
  samples = [];
}

-- The first sample differs from this value.
abbrev pub disagrees : List Text → Text → Bool
disagrees [] value = false
disagrees (s ∷ _) value = not (text_eq s value)

-- A parsed value is compared with the first sample and kept.
abbrev pub add_consistency_sample : Text → HeaderConsistency → HeaderConsistency
add_consistency_sample value c = record c {
  all_parsed_agree = if disagrees c.samples value then false else c.all_parsed_agree;
  samples = keep_sample text_eq value c.samples;
}

abbrev pub observe : Bool → Text → HeaderConsistency → HeaderConsistency
observe valid value c =
    let agreed = if c.observed_count == 0 then true else c.all_parsed_agree in
    let c' = record c { all_parsed_agree = agreed; observed_count = inc64 c.observed_count } in
    if not valid
    then record c' { parse_error_count = inc64 c.parse_error_count }
    else if is_empty value
    then c'
    else add_consistency_sample value c'

abbrev pub Consistencies : Type 0
Consistencies = List (Text × HeaderConsistency)

abbrev pub consistency_of : Text → Consistencies → HeaderConsistency
consistency_of name m = get_or text_eq no_consistency (lookup text_eq name m)

-- recordHeaderObservations of internal/metrics/ratelimit.go.
unfoldable pub record_header_observations :
    List (Text × Bool × Bool × Text) → Consistencies → Consistencies
record_header_observations [] m = m
record_header_observations ((name, present, valid, value) ∷ rest) m =
    record_header_observations rest
      (if present then insert text_eq name (observe valid value (consistency_of name m)) m else m)

-- `"%ds"` of a number that is given by its digits.
abbrev pub seconds_text : Option Text → Option Text
seconds_text none = none
seconds_text (some digits) = some (digits ++ codes "s")

abbrev pub first_some : Option Text → Option Text → Option Text
first_some none o = o
first_some (some s) o = some s

-- The Retry-After sample: the seconds, or else the date.
abbrev pub retry_after_sample : RateLimitInfo → Option Text
retry_after_sample info = first_some (seconds_text info.retry_after_seconds) info.retry_after_date

abbrev pub keep_retry_after : Option Text → List Text → List Text
keep_retry_after none l = l
keep_retry_after (some s) l = keep_sample text_eq s l

abbrev pub text_or_empty : Option Text → Text
text_or_empty none = []
text_or_empty (some s) = s

abbrev pub header_sample : RateLimitInfo → RateLimitHeaderSample
header_sample info = record {
  limit = text_or_empty info.limit;
  remaining = text_or_empty info.remaining;
  reset = text_or_empty (first_some (seconds_text info.reset_seconds) info.reset_date);
  policy = info.policy;
}

abbrev pub has_any : RateLimitInfo → Bool
has_any info =
    is_some info.limit
    || is_some info.remaining
    || is_some info.reset_seconds
    || is_some info.reset_date
    || not (is_empty info.policy)

-- recordRateLimitInfo and recordHeaderObservations.
unfoldable pub record_rate_limit_info :
    Option RateLimitInfo → RateLimitObservations → RateLimitObservations
record_rate_limit_info none r = r
record_rate_limit_info (some info) r = record r {
  retry_after_samples = keep_retry_after (retry_after_sample info) r.retry_after_samples;
  rate_limit_headers =
      if has_any info
      then keep_sample same_header (header_sample info) r.rate_limit_headers
      else r.rate_limit_headers;
  header_consistency = record_header_observations info.header_observations r.header_consistency;
}

module _ (lib : HdrLibrary) where
  unfoldable pub new_worker_metrics : ℤ → WorkerMetrics lib
  new_worker_metrics worker_id = record {
    worker_id = worker_id;
    planned = 0;
    scheduled = 0;
    started = 0;
    completed = 0;
    canceled = 0;
    dropped = 0;
    outcomes = λ _. 0;
    status_codes = [];
    all_latency = lib.new;
    success_latency = lib.new;
    ttfb_sum_microseconds = 0;
    ttfb_count = 0;
    bytes_sent = 0;
    bytes_received = 0;
    error_samples = [];
    rate_limits = record {
      observed_429_count = 0;
      retry_after_samples = [];
      rate_limit_headers = [];
      header_consistency = [];
    };
    scheduler_lag_max_us = pos 0;
    first_throttle_offset_ns = negsuc 0;
  }

-- A duration in whole microseconds, and 0 for a negative one.
abbrev pub microseconds : ℤ → ℕ
microseconds d = pos_part (quot d (pos 1000))

module _ (trim : Text → Text) where
  pub error_case : Result → List ErrorSample → Option Text → List ErrorSample
  error_case res l none =
      if same_outcome res.outcome unexpected_status
      then record_error_sample trim (codes "unexpected HTTP status code " ++ itoa res.status_code)
          (outcome_text res.outcome) l
      else l
  error_case res l (some message) = record_error_sample trim message (outcome_text res.outcome) l

  -- The sample of an error, or of an unexpected status without one.
  unfoldable pub record_error : Result → List ErrorSample → List ErrorSample
  unfolding error_case
  record_error res l = error_case res l res.err

  module _ (lib : HdrLibrary) where
    unfoldable pub record_result : Result → WorkerMetrics lib → WorkerMetrics lib
    record_result res w = record w {
      outcomes = add_outcome res.outcome 1 w.outcomes;
      status_codes =
          if ltb 0 res.status_code
          then add_status res.status_code 1 w.status_codes
          else w.status_codes;
      all_latency = record_latency lib w.all_latency (pos (microseconds res.latency));
      success_latency =
          if is_success res.outcome
          then record_latency lib w.success_latency (pos (microseconds res.latency))
          else w.success_latency;
      ttfb_sum_microseconds =
          if ltb_ℤ (pos 0) res.ttfb
          then add64 w.ttfb_sum_microseconds (microseconds res.ttfb)
          else w.ttfb_sum_microseconds;
      ttfb_count = if ltb_ℤ (pos 0) res.ttfb then inc64 w.ttfb_count else w.ttfb_count;
      bytes_sent = add64 w.bytes_sent res.bytes_sent;
      bytes_received = add64 w.bytes_received res.bytes_received;
      error_samples = record_error res w.error_samples;
      rate_limits = record_rate_limit_info res.rate_limit_info (
          if (res.status_code == too_many_requests) || same_outcome res.outcome rate_limited
          then record (w.rate_limits) {
            observed_429_count = inc64 w.rate_limits.observed_429_count;
          }
          else w.rate_limits);
    }
