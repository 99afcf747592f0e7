-- ===== src/Metrics/Worker/Bounded.antt =====
-- A worker's samples stay bounded, however many results it records.
use daegsa.Prelude.{
  Bool, true, false, List, [], ◌∷◌, Option, none, some, arith, Bool-cases, All, if◌then◌else◌, inl,
  inr,
}
use daegsa.Prelude.Int.{ℤ}
use daegsa.Prelude.Word.{inc64}
use daegsa.Prelude.Text.{Text, text_eq}
use daegsa.Prelude.Assoc.{insert}
use daegsa.Core.Outcome.{unexpected_status}
use daegsa.Metrics.Histogram.{HdrLibrary}
use daegsa.Metrics.Samples.{ErrorSample, same_header}
use daegsa.Metrics.Samples.Bounds.{
  IsSampleList, IsErrorList, keep_sample-IsSampleList, record_error_sample-IsErrorList,
}
use daegsa.Metrics.Worker.{
  WorkerMetrics, Result, RateLimitInfo, RateLimitObservations, HeaderConsistency, Consistencies,
  record_result, new_worker_metrics, record_error, error_case, record_rate_limit_info,
  record_header_observations, observe, consistency_of, same_outcome, keep_retry_after,
  retry_after_sample, has_any, header_sample,
}

abbrev pub AreTexts : List Text → Type 0
AreTexts l = IsSampleList text_eq 10 l

abbrev pub HasFewSamples : Text × HeaderConsistency → Type 0
HasFewSamples e = AreTexts e.1.samples

pub record AreBounded (r : RateLimitObservations) : Type 0 where
  pub retry_after : AreTexts r.retry_after_samples
  pub headers : IsSampleList same_header 10 r.rate_limit_headers
  pub consistency : All HasFewSamples r.header_consistency

lookup-few :
    (name : Text) (m : Consistencies)
    → All HasFewSamples m
    → AreTexts (consistency_of name m).samples
lookup-few name [] h = record { short = omega arith; distinct = tt }
lookup-few name ((n, c) ∷ m) h = elim (Bool-cases (text_eq n name)) [
  | inl here ↦ rw here h.0
  | inr there ↦ rw there (lookup-few name m h.1)
]

insert-few :
    (name : Text) (c : HeaderConsistency) (m : Consistencies)
    → AreTexts c.samples
    → All HasFewSamples m
    → All HasFewSamples (insert text_eq name c m)
insert-few name c [] hc h = (hc, tt)
insert-few name c ((n, d) ∷ m) hc h = elim (Bool-cases (text_eq n name)) [
  | inl here ↦ rw here (hc, h.1)
  | inr there ↦ rw there (h.0, insert-few name c m hc h.1)
]

observe-few :
    (valid : Bool) (value : Text) (c : HeaderConsistency)
    → AreTexts c.samples
    → AreTexts (observe valid value c).samples
observe-few false value c h = h
observe-few true [] c h = h
observe-few true (v ∷ value) c h = keep_sample-IsSampleList text_eq (v ∷ value) c.samples h

record_header_observations-few :
    (l : List (Text × Bool × Bool × Text)) (m : Consistencies)
    → All HasFewSamples m
    → All HasFewSamples (record_header_observations l m)
unfolding record_header_observations
record_header_observations-few [] m h = h
record_header_observations-few ((name, true, valid, value) ∷ l) m h =
    record_header_observations-few l _ (
      insert-few name (observe valid value (consistency_of name m)) m
        (observe-few valid value _ (lookup-few name m h)) h)
record_header_observations-few ((name, false, valid, value) ∷ l) m h =
    record_header_observations-few l m h

keep_retry_after-few :
    (o : Option Text) (l : List Text) → AreTexts l → AreTexts (keep_retry_after o l)
keep_retry_after-few none l h = h
keep_retry_after-few (some s) l h = keep_sample-IsSampleList text_eq s l h

record_rate_limit_info-AreBounded :
    (o : Option RateLimitInfo) (r : RateLimitObservations)
    → AreBounded r
    → AreBounded (record_rate_limit_info o r)
unfolding record_rate_limit_info
record_rate_limit_info-AreBounded none r h = h
record_rate_limit_info-AreBounded (some info) r h = record {
  retry_after = keep_retry_after-few (retry_after_sample info) r.retry_after_samples h.retry_after;
  headers = elim (Bool-cases (has_any info)) [
    | inl y ↦
        rw y
          (keep_sample-IsSampleList same_header (header_sample info) r.rate_limit_headers h.headers)
    | inr n ↦ rw n h.headers
  ];
  consistency =
      record_header_observations-few info.header_observations r.header_consistency h.consistency;
}

count_429 :
    (b : Bool) (r : RateLimitObservations)
    → AreBounded r
    → AreBounded (if b then record r { observed_429_count = inc64 r.observed_429_count } else r)
count_429 true r h = record {
  retry_after = h.retry_after;
  headers = h.headers;
  consistency = h.consistency;
}
count_429 false r h = h

module _ (trim : Text → Text) where
  error_case-IsErrorList :
      (res : Result) (l : List ErrorSample) (o : Option Text)
      → IsErrorList l
      → IsErrorList (error_case trim res l o)
  unfolding error_case
  error_case-IsErrorList res l none h =
      elim (Bool-cases (same_outcome res.outcome unexpected_status)) [
        | inl y ↦ rw y (record_error_sample-IsErrorList trim _ _ l h)
        | inr n ↦ rw n h
      ]
  error_case-IsErrorList res l (some m) h = record_error_sample-IsErrorList trim m _ l h

  module _ (lib : HdrLibrary) where
    -- A worker keeps at most ten error samples with distinct messages or classes, and at most ten
    -- distinct samples of Retry-After, of rate-limit headers, and of each observed header.
    pub record IsBounded (w : WorkerMetrics lib) : Type 0 where
      pub errors : IsErrorList w.error_samples
      pub rate_limits : AreBounded w.rate_limits

    pub new_worker_metrics-IsBounded : (id : ℤ) → IsBounded (new_worker_metrics lib id)
    unfolding new_worker_metrics
    new_worker_metrics-IsBounded id = record {
      errors = record { short = omega arith; distinct = tt };
      rate_limits = record {
        retry_after = record { short = omega arith; distinct = tt };
        headers = record { short = omega arith; distinct = tt };
        consistency = tt;
      };
    }

    record_result-IsBounded :
        (res : Result) (w : WorkerMetrics lib)
        → IsBounded w
        → IsBounded (record_result trim lib res w)
    unfolding record_result record_error
    record_result-IsBounded res w h = record {
      errors = error_case-IsErrorList res w.error_samples res.err h.errors;
      rate_limits =
          record_rate_limit_info-AreBounded res.rate_limit_info _
            (count_429 _ w.rate_limits h.rate_limits);
    }

    abbrev pub record_all : List Result → WorkerMetrics lib → WorkerMetrics lib
    record_all [] w = w
    record_all (r ∷ rs) w = record_all rs (record_result trim lib r w)

    -- However many results a worker records from its start on, its samples stay bounded: at most
    -- ten errors with distinct messages or classes, and at most ten distinct samples of
    -- Retry-After, of rate-limit headers and of each observed header.
    pub record_all-IsBounded :
        (id : ℤ) (results : List Result)
        → IsBounded (record_all results (new_worker_metrics lib id))
    record_all-IsBounded id results =
        go results (new_worker_metrics lib id) (new_worker_metrics-IsBounded id)
      where
        go : (l : List Result) (w : WorkerMetrics lib) → IsBounded w → IsBounded (record_all l w)
        go [] w h = h
        go (r ∷ l) w h = go l (record_result trim lib r w) (record_result-IsBounded r w h)
