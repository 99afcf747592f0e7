-- ===== src/Core/Timing/Bounds.antt =====
-- The range and the order of the four durations of a request.
use daegsa.Prelude.{◌≡◌, ◌≢◌, refl, ◌||◌, if◌then◌else◌, arith}
use daegsa.Prelude.Int.{pos, -ℤ_parts, eq_of_parts, ◌≤ℤ◌}
use daegsa.Prelude.Word.{max_i64}
use daegsa.Core.Timing.{
  Time, Duration, RequestTimestamps, sub, latency, ttfb, schedule_lag, total_duration, is_zero,
  before,
}

-- What each of the four methods computes from its two times.
elapsed : Time → Time → Duration
elapsed start end =
    if is_zero start || is_zero end
    then pos 0
    else if before end start
    then pos 0
    else sub end start

latency-elapsed : (t : RequestTimestamps) → latency t ≡ elapsed t.dispatched_at t.body_completed_at
unfolding latency elapsed
latency-elapsed t = refl

sub_range : (e s : Time) → s ≤ℤ e → (pos 0 ≤ℤ sub e s) × (sub e s ≤ℤ pos max_i64)
unfolding sub
sub_range e s h = ground (arith, -ℤ_parts e s)

sub_mono : (e s e' s' : Time) → s ≤ℤ e → s' ≤ℤ s → e ≤ℤ e' → sub e s ≤ℤ sub e' s'
unfolding sub
sub_mono e s e' s' h p q = ground (arith, -ℤ_parts e s, -ℤ_parts e' s')

elapsed_range : (s e : Time) → (pos 0 ≤ℤ elapsed s e) × (elapsed s e ≤ℤ pos max_i64)
unfolding elapsed
elapsed_range s e = ground (arith, sub_range e s)

elapsed_mono :
    (s s' e e' : Time) → s' ≢ pos 0 → e' ≢ pos 0 → s' ≤ℤ s → e ≤ℤ e' → elapsed s e ≤ℤ elapsed s' e'
unfolding elapsed
elapsed_mono s s' e e' hs he h k =
    ground
      (arith, sub_mono e s e' s', sub_range e' s', eq_of_parts s' (pos 0), eq_of_parts e' (pos 0))

-- The first of the two times of the total duration.
abbrev start_of : RequestTimestamps → Time
start_of t = if is_zero t.planned_at then t.dispatched_at else t.planned_at

total-elapsed :
    (t : RequestTimestamps) → total_duration t ≡ elapsed (start_of t) t.body_completed_at
unfolding total_duration elapsed
total-elapsed t = refl

-- The four durations of a request, whatever its timestamps.
abbrev InRange : Duration → Type 0
InRange d = (pos 0 ≤ℤ d) × (d ≤ℤ pos max_i64)

-- No duration is negative or above the largest int64, whatever the timestamps.
pub durations-InRange :
    (t : RequestTimestamps)
    → InRange (latency t) × InRange (ttfb t) × InRange (schedule_lag t) × InRange (total_duration t)
unfolding latency ttfb schedule_lag elapsed
durations-InRange t = (
  elapsed_range t.dispatched_at t.body_completed_at,
  elapsed_range t.dispatched_at t.headers_received_at,
  elapsed_range t.planned_at t.scheduled_at,
  rw total-elapsed (elapsed_range (start_of t) t.body_completed_at),
)

-- With the dispatch and the completion recorded, the plan no later than the dispatch and the
-- headers no later than the completion, the time to the first byte is at most the latency, and the
-- latency at most the total duration.
pub ttfb-le-latency-le-total :
    (t : RequestTimestamps)
    → t.dispatched_at ≢ pos 0
    → t.body_completed_at ≢ pos 0
    → t.planned_at ≤ℤ t.dispatched_at
    → t.headers_received_at ≤ℤ t.body_completed_at
    → (ttfb t ≤ℤ latency t) × (latency t ≤ℤ total_duration t)
unfolding latency ttfb elapsed
ttfb-le-latency-le-total t hd hb hp hh = (
  elapsed_mono t.dispatched_at t.dispatched_at t.headers_received_at t.body_completed_at hd hb
      (omega arith) hh,
  rw total-elapsed (
      elapsed_mono t.dispatched_at (start_of t) t.body_completed_at t.body_completed_at
        (ground (arith, eq_of_parts t.planned_at (pos 0))) hb (ground arith) (omega arith)),
)
