-- ===== src/Scheduler/Open/Run/Validated.antt =====
-- From the configuration to the end of a run: the segments that validateLoadConfig accepts and
-- CompileLoadProfile compiles take the lifecycle in Run of internal/scheduler/open.go to its end.
use daegsa.Prelude.{
  ℕ, zero, suc, Bool, true, List, [], ◌∷◌, ◌++◌, ◌||◌, ◌&&◌, ◌≡◌, inl, inr, refl, sym, ap, subst,
  arith, not, map, All, is_empty, if◌then◌else◌,
}
use daegsa.Prelude.Int.{ℤ, pos, negsuc, pos_part, eqb_ℤ, leb_ℤ}
use daegsa.Prelude.Float.{Floats}
use daegsa.Prelude.Text.{Text}
use daegsa.Prelude.Strings.{Unicode}
use daegsa.Prelude.Result.{Result, ok, err, unless_err, ok-injective}
use daegsa.Core.Lifecycle.{completed}
use daegsa.Profile.Types.{
  SourceSegment, Segment, Compilation, stage_warmup, stage_measured, stage_cooldown,
}
use daegsa.Profile.Compile.{ProfileError, compile, effective_steps}
use daegsa.Profile.Compile.Stages.{copies, step_stages, compile-stages}
use daegsa.Config.Types.{
  ProfileSegmentConfig, LoadConfig, source_segment, profile_source, segments_or, model_open,
  expected_schema_version,
}
use daegsa.Config.Validate.{ConfigError, segments_need_version, foreign_field, no_rate, no_duration}
use daegsa.Config.Validate.Load.{
  validate_profile_segments, profile_result, compile_load_profile, check_open_segments,
  validate_load_config,
}
use daegsa.Config.Validate.Load.Normal.{validate_load_config-segments}
use daegsa.Config.Validate.Load.Stages.{AreCooldowns, MayCoolDown, AreStaged}
use daegsa.Config.Validate.Load.Segments.{IsSegment, validate_profile_segments-iff-IsProfile}
use daegsa.Scheduler.Open.Run.{Drain, run_lifecycle}
use daegsa.Scheduler.Open.Run.Completes.{at, run_lifecycle-completed}

-- More of the stage that a list may begin with.
more_cooldowns :
    (n : ℕ) (l : List Text) → AreCooldowns l → AreCooldowns (copies n stage_cooldown ++ l)
more_cooldowns zero l h = h
more_cooldowns (suc n) l h = (refl, more_cooldowns n l h)

more_measured : (n : ℕ) (l : List Text) → MayCoolDown l → MayCoolDown (copies n stage_measured ++ l)
more_measured zero l h = h
more_measured (suc n) l h = inl (refl, more_measured n l h)

more_warmups : (n : ℕ) (l : List Text) → AreStaged l → AreStaged (copies n stage_warmup ++ l)
more_warmups zero l h = h
more_warmups (suc n) l h = inl (refl, more_warmups n l h)

some_steps :
    (n : ℤ)
    → (eqb_ℤ n (pos 0) || leb_ℤ (pos 2) n) ≡ true
    → (k : ℕ) × (pos_part (if eqb_ℤ n (pos 0) then pos 1 else n) ≡ suc k)
some_steps (pos zero) h = (0, refl)
some_steps (pos (suc n)) h = (n, ground arith)
some_steps (negsuc n) h = (0, ground arith)

last_of_four :
    (a b c d e f g h : Bool) → ((a && b && c && d) || (e && f && g && h)) ≡ true → (d || h) ≡ true
last_of_four a b c d e f g h p = ground arith

MayCoolDown-of : (l : List Text) → AreCooldowns l → MayCoolDown l
MayCoolDown-of [] h = tt
MayCoolDown-of (t ∷ l) h = inr h

module _ (unicode : Unicode) (floats : Floats) where
  abbrev names : List (ProfileSegmentConfig floats) → List Text
  names l = map (λ (s : ProfileSegmentConfig floats). s.stage) l

  abbrev sources : List (ProfileSegmentConfig floats) → List (SourceSegment floats)
  sources l = map (source_segment floats) l

  abbrev steps_in : ProfileSegmentConfig floats → ℕ
  steps_in s = pos_part (effective_steps floats (source_segment floats s))

  steps_of :
      (s : ProfileSegmentConfig floats)
      → IsSegment unicode floats s
      → (k : ℕ) × (steps_in s ≡ suc k)
  unfolding effective_steps
  steps_of s h = some_steps s.steps (
      last_of_four (floats.lt (floats.of_int (pos 0)) s.rate)
        (floats.eq s.start_rate (floats.of_int (pos 0)))
        (floats.eq s.end_rate (floats.of_int (pos 0))) (eqb_ℤ s.steps (pos 0))
        (floats.eq s.rate (floats.of_int (pos 0))) (floats.lt (floats.of_int (pos 0)) s.start_rate)
        (floats.lt (floats.of_int (pos 0)) s.end_rate) (leb_ℤ (pos 2) s.steps) h.rated)

  cooldown_steps :
      (l : List (ProfileSegmentConfig floats))
      → AreCooldowns (names l)
      → AreCooldowns (step_stages floats (sources l))
  cooldown_steps [] h = tt
  cooldown_steps (s ∷ l) (q, h) =
      subst (λ t. AreCooldowns (copies (steps_in s) t ++ step_stages floats (sources l))) (sym q)
        (more_cooldowns (steps_in s) (step_stages floats (sources l)) (cooldown_steps l h))

  measured_steps :
      (l : List (ProfileSegmentConfig floats))
      → MayCoolDown (names l)
      → MayCoolDown (step_stages floats (sources l))
  measured_steps [] h = tt
  measured_steps (s ∷ l) (inl (q, h)) =
      subst (λ t. MayCoolDown (copies (steps_in s) t ++ step_stages floats (sources l))) (sym q)
        (more_measured (steps_in s) (step_stages floats (sources l)) (measured_steps l h))
  measured_steps (s ∷ l) (inr (q, h)) = MayCoolDown-of _ (
      subst (λ t. AreCooldowns (copies (steps_in s) t ++ step_stages floats (sources l))) (sym q)
        (more_cooldowns (steps_in s) (step_stages floats (sources l)) (cooldown_steps l h)))

  -- The steps of the segments of a profile are in order as the segments are.
  staged_steps :
      (l : List (ProfileSegmentConfig floats))
      → All (IsSegment unicode floats) l
      → AreStaged (names l)
      → AreStaged (step_stages floats (sources l))
  staged_steps [] good h = elim h [ ]
  staged_steps (s ∷ l) good (inl (q, h)) =
      subst (λ t. AreStaged (copies (steps_in s) t ++ step_stages floats (sources l))) (sym q)
        (more_warmups (steps_in s) (step_stages floats (sources l)) (staged_steps l good.1 h))
  staged_steps (s ∷ l) good (inr (q, h)) =
      let (k, some) = steps_of s good.0 in
      let steps : AreStaged (copies (suc k) stage_measured ++ step_stages floats (sources l)) =
        inr (refl, more_measured k (step_stages floats (sources l)) (measured_steps l h)) in
      subst (λ t. AreStaged (copies (steps_in s) t ++ step_stages floats (sources l))) (sym q)
        (subst (λ n. AreStaged (copies n stage_measured ++ step_stages floats (sources l)))
          (sym some) steps)

  source_staged :
      (load : LoadConfig floats) (v : ℤ)
      → check_open_segments unicode floats load v ≡ ok tt
      → AreStaged (step_stages floats (profile_source floats load))
  unfolding check_open_segments profile_source effective_steps
  source_staged load v h = go load.segments h
    where
      go :
          (l : List (ProfileSegmentConfig floats))
          → ◌≡◌ {A = Result ConfigError (Unit {0})}
              (if not (is_empty l)
                then (if not (eqb_ℤ v expected_schema_version)
                    then err segments_need_version
                    else if not (floats.eq load.rate (floats.of_int (pos 0)))
                        || not (eqb_ℤ load.duration (pos 0))
                    then err foreign_field
                    else validate_profile_segments unicode floats l)
                else if floats.le load.rate (floats.of_int (pos 0))
                then err no_rate
                else if leb_ℤ load.duration (pos 0)
                then err no_duration
                else ok tt)
              (ok tt)
          → AreStaged (step_stages floats (segments_or floats load l))
      go [] h = inr (refl, tt)
      go (s ∷ l) h =
          let h1 = unless_err (not (eqb_ℤ v expected_schema_version)) segments_need_version h in
          let h2 =
            unless_err
              (not (floats.eq load.rate (floats.of_int (pos 0)))
                || not (eqb_ℤ load.duration (pos 0)))
              foreign_field h1 in
          let (profile_of, _) = validate_profile_segments-iff-IsProfile unicode floats (s ∷ l) in
          let profile = profile_of h2 in staged_steps (s ∷ l) profile.good profile.staged

  compile_parts :
      (load : LoadConfig floats) {c : Compilation floats}
      → compile_load_profile unicode floats load ≡ ok c
      → compile floats (profile_source floats load) load.time_unit ≡ ok c
  unfolding compile_load_profile
  compile_parts load {c} h = go (compile floats (profile_source floats load) load.time_unit) h
    where
      go :
          (r : Result ProfileError (Compilation floats))
          → profile_result unicode floats r ≡ ok c
          → r ≡ ok c
      go (ok d) h = ap ok (ok-injective h)
      go (err e) h = cc

  -- When a load of the open model was accepted and its profile compiled, then a run over the compiled
  -- segments ends in `completed` with no move between stages refused, wherever a hard cancellation
  -- may break the loop, and however the wait for the workers ends.
  pub run_lifecycle-validated :
      (hard_canceled : Segment floats → Bool) (drain : Drain) (load : LoadConfig floats) (v : ℤ)
      {load' : LoadConfig floats} {c : Compilation floats}
      → load.model ≡ model_open
      → validate_load_config unicode floats load v ≡ ok load'
      → compile_load_profile unicode floats load' ≡ ok c
      → run_lifecycle hard_canceled drain c.segments ≡ ok (at completed)
  run_lifecycle-validated hard_canceled drain load v {load'} {c} open_model accepted compiled =
      let checked = validate_load_config-segments unicode floats load v open_model accepted in
      run_lifecycle-completed hard_canceled drain c.segments (
        subst AreStaged
          (sym (
            compile-stages floats (profile_source floats load') load'.time_unit
              (compile_parts load' compiled)))
          (source_staged load' v checked))
