-- ===== src/Config/Validate/Load.antt =====
-- validateLoadConfig and validateProfileSegments of internal/config/validate.go, and
-- CompileLoadProfile of internal/config/types.go.
pub mod Stages
pub mod Segments
pub mod Normal
use daegsa.Prelude.{
  ℕ, Bool, true, false, List, [], ◌∷◌, Option, none, some, ◌||◌, ◌&&◌, not, any, is_empty, ltb, leb,
  ◌==◌, length, if◌then◌else◌,
}
use daegsa.Prelude.Int.{ℤ, pos, ltb_ℤ, leb_ℤ, eqb_ℤ}
use daegsa.Prelude.Float.{Floats}
use daegsa.Prelude.Text.{Text, text_eq}
use daegsa.Prelude.Strings.{Unicode, trim_space, byte_len}
use daegsa.Prelude.Result.{Result, ok, err, ◌>>=◌}
use daegsa.Profile.Types.{
  Compilation, stage_warmup, stage_measured, stage_cooldown, max_source_segments,
  max_segment_name_length,
}
use daegsa.Profile.Compile.{ProfileError, compile}
use daegsa.Config.Types.{
  LoadConfig, ProfileSegmentConfig, profile_source, expected_schema_version, default_graceful_stop,
  default_time_unit, model_open, model_closed,
}
use daegsa.Config.Validate.{
  ConfigError, invalid_model, negative_graceful_stop, no_max_in_flight, foreign_field,
  segments_need_version, no_rate, no_duration, no_users, negative_think_time, segment_count,
  segment_name, duplicate_segment, segment_stage, segment_duration, segment_rates,
  no_measured_segment, invalid_profile,
}

-- The rank of a stage in a profile; other texts are no stages.
unfoldable pub stage_rank : Text → Option ℕ
stage_rank stage =
    if text_eq stage stage_warmup
    then some 0
    else if text_eq stage stage_measured
    then some 1
    else if text_eq stage stage_cooldown
    then some 2
    else none

module _ (unicode : Unicode) (floats : Floats) where
  open floats use {Float, of_int, eq, lt, le}

  abbrev zero_float : Float
  zero_float = of_int (pos 0)

  abbrev pub is_constant : ProfileSegmentConfig floats → Bool
  is_constant s =
      lt zero_float s.rate
      && eq s.start_rate zero_float
      && eq s.end_rate zero_float
      && eqb_ℤ s.steps (pos 0)

  abbrev pub is_ramp : ProfileSegmentConfig floats → Bool
  is_ramp s =
      eq s.rate zero_float
      && lt zero_float s.start_rate
      && lt zero_float s.end_rate
      && leb_ℤ (pos 2) s.steps

  -- The checks of a segment whose stage has the rank, after those of its name.
  unfoldable pub check_ranked : ℕ → ProfileSegmentConfig floats → Option ℕ → Result ConfigError ℕ
  check_ranked previous s none = err segment_stage
  check_ranked previous s (some rank) =
      if ltb rank previous
      then err segment_stage
      else if leb_ℤ s.duration (pos 0)
      then err segment_duration
      else if not (is_constant s) && not (is_ramp s)
      then err segment_rates
      else ok rank

  -- The rank of a segment that is accepted after the names and the rank before it.
  unfoldable pub check_segment : List Text → ℕ → ProfileSegmentConfig floats → Result ConfigError ℕ
  check_segment seen previous s =
      let name = trim_space unicode s.name in
      if is_empty name || ltb max_segment_name_length (byte_len name)
      then err segment_name
      else if any (λ n. text_eq n name) seen
      then err duplicate_segment
      else check_ranked previous s (stage_rank s.stage)

  -- The loop over the segments returns whether one is measured.
  unfoldable pub check_segments :
      List (ProfileSegmentConfig floats) → List Text → ℕ → Bool → Result ConfigError Bool
  check_segments [] seen previous has_measured = ok has_measured
  check_segments (s ∷ l) seen previous has_measured = check_segment seen previous s >>= λ rank.
      check_segments l (trim_space unicode s.name ∷ seen) rank
        (has_measured || text_eq s.stage stage_measured)

  unfoldable pub validate_profile_segments :
      List (ProfileSegmentConfig floats) → Result ConfigError (Unit {0})
  validate_profile_segments segments =
      if length segments == 0 || ltb max_source_segments (length segments)
      then err segment_count
      else (check_segments segments [] 0 false >>= λ has_measured.
          if not has_measured then err no_measured_segment else ok tt)

  abbrev pub profile_result :
      Result ProfileError (Compilation floats) → Result ConfigError (Compilation floats)
  profile_result (ok c) = ok c
  profile_result (err e) = err (invalid_profile e)

  unfoldable pub compile_load_profile : LoadConfig floats → Result ConfigError (Compilation floats)
  compile_load_profile load =
      profile_result (compile floats (profile_source floats load) load.time_unit)

  unfoldable pub check_open_segments : LoadConfig floats → ℤ → Result ConfigError (Unit {0})
  check_open_segments load schema_version =
      if not (is_empty load.segments)
      then (if not (eqb_ℤ schema_version expected_schema_version)
          then err segments_need_version
          else if not (eq load.rate zero_float) || not (eqb_ℤ load.duration (pos 0))
          then err foreign_field
          else validate_profile_segments load.segments)
      else if le load.rate zero_float
      then err no_rate
      else if leb_ℤ load.duration (pos 0)
      then err no_duration
      else ok tt

  unfoldable pub validate_open : LoadConfig floats → ℤ → Result ConfigError (LoadConfig floats)
  validate_open load schema_version =
      let load' = record load {
        time_unit = if leb_ℤ load.time_unit (pos 0) then default_time_unit else load.time_unit;
      } in
      if leb_ℤ load.max_in_flight (pos 0)
      then err no_max_in_flight
      else if not (eqb_ℤ load.users (pos 0)) || not (eqb_ℤ load.think_time (pos 0))
      then err foreign_field
      else (check_open_segments load' schema_version >>= λ _.
          compile_load_profile load' >>= λ _. ok load')

  unfoldable pub validate_closed : LoadConfig floats → Result ConfigError (LoadConfig floats)
  validate_closed load =
      if leb_ℤ load.duration (pos 0)
      then err no_duration
      else if leb_ℤ load.users (pos 0)
      then err no_users
      else if ltb_ℤ load.think_time (pos 0)
      then err negative_think_time
      else if not (eq load.rate zero_float)
          || not (eqb_ℤ load.time_unit (pos 0))
          || not (eqb_ℤ load.max_in_flight (pos 0))
          || not (is_empty load.segments)
      then err foreign_field
      else ok load

  unfoldable pub validate_load_config :
      LoadConfig floats → ℤ → Result ConfigError (LoadConfig floats)
  validate_load_config load schema_version =
      let load' = record load {
        graceful_stop =
            if eqb_ℤ load.graceful_stop (pos 0) then default_graceful_stop else load.graceful_stop;
      } in
      if not (text_eq load.model model_open) && not (text_eq load.model model_closed)
      then err invalid_model
      else if ltb_ℤ load.graceful_stop (pos 0)
      then err negative_graceful_stop
      else if text_eq load.model model_open
      then validate_open load' schema_version
      else validate_closed load'
