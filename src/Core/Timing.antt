-- ===== src/Core/Timing.antt =====
-- internal/core/timing.go. A time is its distance in nanoseconds from the zero time.Time; the
-- difference of two saturates at the bounds of an int64, as time.Time.Sub does.
pub mod Bounds
use daegsa.Prelude.{Bool, ◌||◌, if◌then◌else◌}
use daegsa.Prelude.Int.{ℤ, pos, negsuc, ◌-ℤ◌, ltb_ℤ, eqb_ℤ}
use daegsa.Prelude.Word.{max_i64}

abbrev pub Time : Type 0
Time = ℤ

abbrev pub Duration : Type 0
Duration = ℤ

abbrev pub is_zero : Time → Bool
is_zero t = eqb_ℤ t (pos 0)

-- t.Before(u)
abbrev pub before : Time → Time → Bool
before t u = ltb_ℤ t u

-- A difference cut to the range of a time.Duration.
abbrev saturate : ℤ → Duration
saturate d =
    if ltb_ℤ (pos max_i64) d
    then pos max_i64
    else if ltb_ℤ d (negsuc max_i64)
    then negsuc max_i64
    else d

-- t.Sub(u)
unfoldable pub sub : Time → Time → Duration
sub t u = saturate (t -ℤ u)

pub record RequestTimestamps : Type 0 where
  pub planned_at : Time
  pub scheduled_at : Time
  pub dispatched_at : Time
  pub headers_received_at : Time
  pub body_completed_at : Time

unfoldable pub latency : RequestTimestamps → Duration
latency t =
    if is_zero t.dispatched_at || is_zero t.body_completed_at
    then pos 0
    else if before t.body_completed_at t.dispatched_at
    then pos 0
    else sub t.body_completed_at t.dispatched_at

unfoldable pub ttfb : RequestTimestamps → Duration
ttfb t =
    if is_zero t.dispatched_at || is_zero t.headers_received_at
    then pos 0
    else if before t.headers_received_at t.dispatched_at
    then pos 0
    else sub t.headers_received_at t.dispatched_at

unfoldable pub schedule_lag : RequestTimestamps → Duration
schedule_lag t =
    if is_zero t.planned_at || is_zero t.scheduled_at
    then pos 0
    else if before t.scheduled_at t.planned_at
    then pos 0
    else sub t.scheduled_at t.planned_at

unfoldable pub total_duration : RequestTimestamps → Duration
total_duration t =
    let start = if is_zero t.planned_at then t.dispatched_at else t.planned_at in
    if is_zero start || is_zero t.body_completed_at
    then pos 0
    else if before t.body_completed_at start
    then pos 0
    else sub t.body_completed_at start
