-- ===== src/Profile/Types.antt =====
-- internal/profile/types.go. A time.Duration is an integer in the range of an int64.
use daegsa.Prelude.{ℕ, List, Bool}
use daegsa.Prelude.Int.{ℤ}
use daegsa.Prelude.Float.{Floats}
use daegsa.Prelude.Text.{Text, codes}

abbrev pub stage_warmup : Text
stage_warmup = codes "warmup"

abbrev pub stage_measured : Text
stage_measured = codes "measured"

abbrev pub stage_cooldown : Text
stage_cooldown = codes "cooldown"

abbrev pub max_source_segments : ℕ
max_source_segments = 64

abbrev pub max_segment_name_length : ℕ
max_segment_name_length = 64

abbrev pub max_compiled_segments : ℕ
max_compiled_segments = 256

module _ (floats : Floats) where
  pub record SourceSegment : Type 0 where
    pub name : Text
    pub stage : Text
    pub duration : ℤ
    pub rate : floats.Float
    pub start_rate : floats.Float
    pub end_rate : floats.Float
    pub steps : ℤ

  pub record Segment : Type 0 where
    pub index : ℕ
    pub name : Text
    pub stage : Text
    pub start_offset : ℤ
    pub end_offset : ℤ
    pub start_offset_ms : ℤ
    pub end_offset_ms : ℤ
    pub duration : ℤ
    pub duration_ms : ℤ
    pub rate : floats.Float
    pub target_rps : floats.Float
    pub included_measured : Bool

  pub record Compilation : Type 0 where
    pub segments : List Segment
    pub total_duration : ℤ
    pub peak_target_rps : floats.Float
