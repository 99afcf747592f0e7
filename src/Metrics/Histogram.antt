-- ===== src/Metrics/Histogram.antt =====
-- internal/metrics/histogram.go. The histogram itself is github.com/HdrHistogram/hdrhistogram-go,
-- which the model takes as a parameter; `record_value` gives `none` for the error of a value that
-- it cannot hold.
use daegsa.Prelude.{ℕ, ◌+◌, ◌≡◌, Option, none, some, ◌==◌, if◌then◌else◌, arith}
use daegsa.Prelude.Int.{ℤ, pos, ltb_ℤ, ◌≤ℤ◌}

abbrev pub min_latency_microseconds : ℤ
min_latency_microseconds = pos 1

abbrev pub max_latency_microseconds : ℤ
max_latency_microseconds = pos 3_600_000_000

pub record HdrLibrary : Type 1 where
  pub Hdr : Type 0
  pub new : Hdr
  pub record_value : Hdr → ℤ → Option Hdr
  pub total_count : Hdr → ℕ
  pub merge : Hdr → Hdr → Hdr
  pub min_value : Hdr → ℤ
  pub max_value : Hdr → ℤ

-- What the library documents of a histogram that tracks the values from 1 to an hour.
pub record HdrLaws (lib : HdrLibrary) : Type 0 where
  pub count_new : lib.total_count lib.new ≡ 0
  pub count_record :
      (h : lib.Hdr) (v : ℤ)
      → min_latency_microseconds ≤ℤ v
      → v ≤ℤ max_latency_microseconds
      → (h' : lib.Hdr) × (lib.record_value h v ≡ some h')
        × (lib.total_count h' ≡ lib.total_count h + 1)
  pub count_merge :
      (h k : lib.Hdr) → lib.total_count (lib.merge h k) ≡ lib.total_count h + lib.total_count k

unfoldable pub clamp : ℤ → ℤ
clamp v =
    if ltb_ℤ v min_latency_microseconds
    then min_latency_microseconds
    else if ltb_ℤ max_latency_microseconds v
    then max_latency_microseconds
    else v

pub clamp_range :
    (v : ℤ) → (min_latency_microseconds ≤ℤ clamp v) × (clamp v ≤ℤ max_latency_microseconds)
unfolding clamp
clamp_range v = ground arith

module _ (lib : HdrLibrary) where
  open lib use {Hdr, record_value, total_count, merge, min_value, max_value}

  -- A failed call leaves the histogram as it was; the callers drop the error.
  pub after_record : Hdr → Option Hdr → Hdr
  after_record h none = h
  after_record h (some h') = h'

  unfoldable pub record_latency : Hdr → ℤ → Hdr
  record_latency h v = after_record h (record_value h (clamp v))

  unfoldable pub merge_histogram : Hdr → Hdr → Hdr
  merge_histogram h other = if total_count other == 0 then h else merge h other

  unfoldable pub min_latency : Hdr → ℤ
  min_latency h = if total_count h == 0 then pos 0 else min_value h

  unfoldable pub max_latency : Hdr → ℤ
  max_latency h = if total_count h == 0 then pos 0 else max_value h

  -- Every latency is counted, also one below a microsecond or above an hour.
  pub count-record_latency :
      (laws : HdrLaws lib) (h : Hdr) (v : ℤ) → total_count (record_latency h v) ≡ total_count h + 1
  unfolding record_latency after_record
  count-record_latency laws h v =
      let (h', e, n) = laws.count_record h (clamp v) (clamp_range v).0 (clamp_range v).1 in rw e n

  pub count-merge_histogram :
      (laws : HdrLaws lib) (h k : Hdr)
      → total_count (merge_histogram h k) ≡ total_count h + total_count k
  unfolding merge_histogram
  count-merge_histogram laws h k = ground (arith, laws.count_merge h k)
