-- ===== src/Config/Validate/Load/Normal.antt =====
-- validateLoadConfig of internal/config/validate.go: what it stores is in normal form, and is accepted
-- again as it stands.
use daegsa.Prelude.{
  Bool, true, false, ◌≡◌, refl, sym, ◌∙◌, ap, subst, ◌⊎◌, inl, inr, arith, Bool-cases,
  if◌then◌else◌, ◌&&◌, not, ◌||◌, is_empty,
}
use daegsa.Prelude.Int.{ℤ, pos, leb_ℤ, ltb_ℤ, eqb_ℤ}
use daegsa.Prelude.Float.{Floats}
use daegsa.Prelude.Text.{text_eq, text_eq_complete}
use daegsa.Prelude.Strings.{Unicode}
use daegsa.Prelude.Result.{
  Result, ok, ◌>>=◌, ok_parts, ok-injective, guard_parts, guard_of, unless_err,
}
use daegsa.Profile.Types.{Compilation}
use daegsa.Config.Types.{
  LoadConfig, model_open, model_closed, default_graceful_stop, default_time_unit,
}
use daegsa.Config.Validate.{
  ConfigError, no_max_in_flight, foreign_field, no_duration, no_users, negative_think_time,
  invalid_model, negative_graceful_stop,
}
use daegsa.Config.Validate.Load.{
  compile_load_profile, check_open_segments, validate_open, validate_closed, validate_load_config,
}

abbrev stop_or_default : ℤ → ℤ
stop_or_default g = if eqb_ℤ g (pos 0) then default_graceful_stop else g

abbrev unit_or_default : ℤ → ℤ
unit_or_default u = if leb_ℤ u (pos 0) then default_time_unit else u

stop_twice : (g : ℤ) → stop_or_default (stop_or_default g) ≡ stop_or_default g
stop_twice g = elim (Bool-cases (eqb_ℤ g (pos 0))) [ inl e ↦ rw e refl | inr e ↦ rw (e, e) refl ]

unit_twice : (u : ℤ) → unit_or_default (unit_or_default u) ≡ unit_or_default u
unit_twice u = elim (Bool-cases (leb_ℤ u (pos 0))) [ inl e ↦ rw e refl | inr e ↦ rw (e, e) refl ]

stop_not_negative : (g : ℤ) → ltb_ℤ g (pos 0) ≡ false → ltb_ℤ (stop_or_default g) (pos 0) ≡ false
stop_not_negative g h = elim (Bool-cases (eqb_ℤ g (pos 0))) [ inl e ↦ rw e refl | inr e ↦ rw e h ]

module _ (unicode : Unicode) (floats : Floats) where
  abbrev with_unit : LoadConfig floats → LoadConfig floats
  with_unit load = record load { time_unit = unit_or_default load.time_unit }

  abbrev compiled_as : ℤ → LoadConfig floats → Result ConfigError (LoadConfig floats)
  compiled_as v load = check_open_segments unicode floats load v >>= λ _.
      compile_load_profile unicode floats load >>= λ _. ok load

  compiled_same :
      (v : ℤ) (load : LoadConfig floats) {load' : LoadConfig floats}
      → compiled_as v load ≡ ok load'
      → load ≡ load'
  compiled_same v load h =
      let (a, _, rest) = ok_parts (check_open_segments unicode floats load v) h in
      let (b, _, same) = ok_parts (compile_load_profile unicode floats load) rest in
      ok-injective same

  open_again :
      (load : LoadConfig floats) (v : ℤ) {load' : LoadConfig floats}
      → validate_open unicode floats load v ≡ ok load'
      → (with_unit load ≡ load')
        × (validate_open unicode floats (with_unit load) v ≡ ok (with_unit load))
  unfolding validate_open
  open_again load v h =
      let (many, h1) = guard_parts (leb_ℤ load.max_in_flight (pos 0)) no_max_in_flight h in
      let (foreign, h2) =
        guard_parts (not (eqb_ℤ load.users (pos 0)) || not (eqb_ℤ load.think_time (pos 0)))
          foreign_field h1 in
      let same = compiled_same v (with_unit load) h2 in
      (
        same,
        guard_of _ no_max_in_flight many (
            guard_of _ foreign_field foreign (
              ap (λ u. compiled_as v (record load { time_unit = u })) (unit_twice load.time_unit)
              ∙ (h2 ∙ ap ok (sym same)))),
      )

  abbrev has_rate : LoadConfig floats → Bool
  has_rate load =
      not (floats.eq load.rate (floats.of_int (pos 0)))
      || not (eqb_ℤ load.time_unit (pos 0))
      || not (eqb_ℤ load.max_in_flight (pos 0))

  abbrev has_open_field : LoadConfig floats → Bool
  has_open_field load = has_rate load || not (is_empty load.segments)

  closed_same :
      (load : LoadConfig floats) {load' : LoadConfig floats}
      → validate_closed unicode floats load ≡ ok load'
      → load ≡ load'
  unfolding validate_closed
  closed_same load h =
      let h1 = unless_err (leb_ℤ load.duration (pos 0)) no_duration h in
      let h2 = unless_err (leb_ℤ load.users (pos 0)) no_users h1 in
      let h3 = unless_err (ltb_ℤ load.think_time (pos 0)) negative_think_time h2 in
      let h4 = unless_err (has_open_field load) foreign_field h3 in ok-injective h4

  -- A load that is accepted has become one that is accepted as it stands: validated again, nothing in
  -- it changes.
  pub validate_load_config_again :
      (load : LoadConfig floats) (v : ℤ) {load' : LoadConfig floats}
      → validate_load_config unicode floats load v ≡ ok load'
      → validate_load_config unicode floats load' v ≡ ok load'
  unfolding validate_load_config
  validate_load_config_again load v {load'} h =
      let (model, h1) =
        guard_parts (not (text_eq load.model model_open) && not (text_eq load.model model_closed))
          invalid_model h in
      let (stop, h2) = guard_parts (ltb_ℤ load.graceful_stop (pos 0)) negative_graceful_stop h1 in
      let stopped : LoadConfig floats = record load {
        graceful_stop = stop_or_default load.graceful_stop;
      } in
      elim (Bool-cases (text_eq load.model model_open)) [
        | inl e ↦
            let (same, again) = open_again stopped v (rw e at h2) in
            subst (λ l. validate_load_config unicode floats l v ≡ ok l) same
              (guard_of _ invalid_model model (
                guard_of _ negative_graceful_stop (stop_not_negative load.graceful_stop stop) (
                  rw e (
                    ap
                      (λ g.
                        validate_open unicode floats
                          (record (with_unit stopped) { graceful_stop = g }) v)
                      (stop_twice load.graceful_stop)
                    ∙ again))))
        | inr e ↦
            let h3 : validate_closed unicode floats stopped ≡ ok load' = rw e at h2 in
            let same = closed_same stopped h3 in
            subst (λ l. validate_load_config unicode floats l v ≡ ok l) same
              (guard_of _ invalid_model model (
                guard_of _ negative_graceful_stop (stop_not_negative load.graceful_stop stop) (
                  rw e (
                    ap (λ g. validate_closed unicode floats (record stopped { graceful_stop = g }))
                      (stop_twice load.graceful_stop)
                    ∙ (h3 ∙ ap ok (sym same))))))
      ]

  -- What the load that is stored has besides.
  abbrev Kept : LoadConfig floats → LoadConfig floats → Type 0
  Kept load load' =
      (load'.model ≡ load.model)
      × ((is_empty load'.segments ≡ true)
          ⊎ ((c : Compilation floats) × (compile_load_profile unicode floats load' ≡ ok c)))

  open-Kept :
      (load : LoadConfig floats) (v : ℤ) {load' : LoadConfig floats}
      → validate_open unicode floats load v ≡ ok load'
      → Kept load load'
  unfolding validate_open
  open-Kept load v h =
      let h1 = unless_err (leb_ℤ load.max_in_flight (pos 0)) no_max_in_flight h in
      let h2 =
        unless_err (not (eqb_ℤ load.users (pos 0)) || not (eqb_ℤ load.think_time (pos 0)))
          foreign_field h1 in
      let (a, _, rest) = ok_parts (check_open_segments unicode floats (with_unit load) v) h2 in
      let (c, compiled, same) =
        ok_parts (compile_load_profile unicode floats (with_unit load)) rest in
      subst (Kept load) (ok-injective same) (refl, inr (c, compiled))

  closed-Kept :
      (load : LoadConfig floats) {load' : LoadConfig floats}
      → validate_closed unicode floats load ≡ ok load'
      → Kept load load'
  unfolding validate_closed
  closed-Kept load h =
      let h1 = unless_err (leb_ℤ load.duration (pos 0)) no_duration h in
      let h2 = unless_err (leb_ℤ load.users (pos 0)) no_users h1 in
      let h3 = unless_err (ltb_ℤ load.think_time (pos 0)) negative_think_time h2 in
      let (none_open, h4) = guard_parts (has_open_field load) foreign_field h3 in
      subst (Kept load) (ok-injective h4)
        (refl, inl (no_segments (has_rate load) (is_empty load.segments) none_open))
    where
      no_segments : (a b : Bool) → (a || not b) ≡ false → b ≡ true
      no_segments a b h = ground arith

  -- The model stays, and an accepted load has no segments or they compile.
  pub validate_load_config-compiles :
      (load : LoadConfig floats) (v : ℤ) {load' : LoadConfig floats}
      → validate_load_config unicode floats load v ≡ ok load'
      → (load'.model ≡ load.model)
        × ((is_empty load'.segments ≡ true)
            ⊎ ((c : Compilation floats) × (compile_load_profile unicode floats load' ≡ ok c)))
  unfolding validate_load_config
  validate_load_config-compiles load v {load'} h =
      let (_, h1) =
        guard_parts (not (text_eq load.model model_open) && not (text_eq load.model model_closed))
          invalid_model h in
      let (_, h2) = guard_parts (ltb_ℤ load.graceful_stop (pos 0)) negative_graceful_stop h1 in
      let stopped : LoadConfig floats = record load {
        graceful_stop = stop_or_default load.graceful_stop;
      } in
      elim (Bool-cases (text_eq load.model model_open)) [
        | inl e ↦ open-Kept stopped v (rw e at h2)
        | inr e ↦ closed-Kept stopped (rw e at h2)
      ]

  open_segments :
      (load : LoadConfig floats) (v : ℤ) {load' : LoadConfig floats}
      → validate_open unicode floats load v ≡ ok load'
      → check_open_segments unicode floats load' v ≡ ok tt
  unfolding validate_open
  open_segments load v h =
      let h1 = unless_err (leb_ℤ load.max_in_flight (pos 0)) no_max_in_flight h in
      let h2 =
        unless_err (not (eqb_ℤ load.users (pos 0)) || not (eqb_ℤ load.think_time (pos 0)))
          foreign_field h1 in
      let (_, checked, _) = ok_parts (check_open_segments unicode floats (with_unit load) v) h2 in
      subst (λ l. check_open_segments unicode floats l v ≡ ok tt)
        (compiled_same v (with_unit load) h2) checked

  -- The segments of an accepted open load pass their check as they stand.
  pub validate_load_config-segments :
      (load : LoadConfig floats) (v : ℤ) {load' : LoadConfig floats}
      → load.model ≡ model_open
      → validate_load_config unicode floats load v ≡ ok load'
      → check_open_segments unicode floats load' v ≡ ok tt
  unfolding validate_load_config
  validate_load_config-segments load v {load'} open_model h =
      let (_, h1) =
        guard_parts (not (text_eq load.model model_open) && not (text_eq load.model model_closed))
          invalid_model h in
      let (_, h2) = guard_parts (ltb_ℤ load.graceful_stop (pos 0)) negative_graceful_stop h1 in
      let is_open : text_eq load.model model_open ≡ true =
        text_eq_complete load.model model_open open_model in
      open_segments (record load { graceful_stop = stop_or_default load.graceful_stop }) v
        (rw is_open at h2)
