-- ===== src/Threshold/Parse/Measured.antt =====
-- The evaluator measures the metric that the parser has accepted, against a target in range.
use daegsa.Prelude.{
  false, List, [], ◌∷◌, Option, some, ◌≡◌, refl, sym, ap, ◌∙◌, subst, arith, All, is_empty, inl,
  inr, Bool-cases,
}
use daegsa.Prelude.Int.{ℤ, pos}
use daegsa.Prelude.Float.{Floats}
use daegsa.Prelude.Text.{Text, codes, has_prefix}
use daegsa.Prelude.Strings.{Unicode, trim_space, split_on}
use daegsa.Prelude.Result.{ok}
use daegsa.Threshold.Types.{rate, Metric, metric_named, category_of, Threshold}
use daegsa.Threshold.Evaluate.{metric_to_extract}
use daegsa.Threshold.Parse.{step_parts, parse_metric, parse_target_value, parse_threshold}
use daegsa.Threshold.Parse.Spaces.{IsSpaceless, trim_space_lem, split_on-IsSpaceless}
use daegsa.Threshold.Parse.Shape.{
  SplitsAs, split_on-LastPart, third_part, parse_rate-range, parse_threshold-Named,
}

module _ (unicode : Unicode) where
  -- The two forms of a metric's name.
  data MetricForm (trimmed step canonical : Text) : Type 0 where
    plain : step ≡ [] → canonical ≡ trimmed → MetricForm trimmed step canonical
    stepped :
        (p s m : Text)
        → split_on b'.' trimmed ≡ p ∷ s ∷ m ∷ []
        → canonical ≡ trim_space unicode m
        → is_empty step ≡ false
        → MetricForm trimmed step canonical

  step_parts-MetricForm :
      (trimmed : Text) (l : List Text) {step canonical : Text}
      → split_on b'.' trimmed ≡ l
      → step_parts unicode l ≡ ok (step, canonical)
      → MetricForm trimmed step canonical
  unfolding step_parts
  step_parts-MetricForm trimmed [] e h = cc
  step_parts-MetricForm trimmed (p ∷ []) e h = cc
  step_parts-MetricForm trimmed (p ∷ s ∷ []) e h = cc
  step_parts-MetricForm trimmed (p ∷ s ∷ m ∷ x ∷ xs) e h = cc
  step_parts-MetricForm trimmed (p ∷ s ∷ m ∷ []) e h = stepped p s m e (ground arith) (ground arith)

  parse_metric-MetricForm :
      (trimmed : Text) {step canonical : Text}
      → parse_metric unicode trimmed ≡ ok (step, canonical)
      → MetricForm trimmed step canonical
  unfolding parse_metric
  parse_metric-MetricForm trimmed h = elim (Bool-cases (has_prefix trimmed (codes "step."))) [
    | inl e ↦ step_parts-MetricForm trimmed _ refl (rw e at h)
    | inr e ↦ plain (ground arith) (ground arith)
  ]

  module _ (floats : Floats) where
    open floats use {Float, of_int, lt}

    extract-canonical :
        (t : Threshold floats) {step canonical : Text}
        → IsSpaceless unicode t.metric_name
        → t.step_name ≡ step
        → MetricForm t.metric_name step canonical
        → (fixed2 : Float → Text) → metric_to_extract floats fixed2 t ≡ canonical
    unfolding metric_to_extract
    extract-canonical t sp e (plain s c) fixed2 = rw (e, s) (sym c)
    extract-canonical t sp e (stepped p s m split c ne) fixed2 =
        let parts : All (IsSpaceless unicode) (p ∷ s ∷ m ∷ []) =
          subst (All (IsSpaceless unicode)) split
            (split_on-IsSpaceless unicode b'.' t.metric_name sp) in
        let last = third_part b'.' t.metric_name split (split_on-LastPart b'.' t.metric_name) in
        rw (e, ne, last) (sym (trim_space_lem unicode m parts.1.1.0) ∙ sym c)

    module _ (parse_float : Text → Option Float) (parse_int : Text → Option ℤ) where
      -- A threshold that was parsed from a metric name without spaces is evaluated on a canonical
      -- metric of the threshold's category, for a step as for the whole run, and never by the
      -- evaluator's default.
      pub parse_threshold-metric_to_extract :
          (fixed2 : Float → Text) (name expr : Text) {t : Threshold floats}
          → IsSpaceless unicode name
          → parse_threshold unicode floats parse_float parse_int name expr ≡ ok t
          → (m : Metric) × (metric_named (metric_to_extract floats fixed2 t) ≡ some m)
            × (category_of m ≡ t.category)
      parse_threshold-metric_to_extract fixed2 name expr {t} sp h =
          let n = parse_threshold-Named unicode floats parse_float parse_int name expr h in
          let x = n.expressed in
          let same = x.same_metric ∙ trim_space_lem unicode name sp in
          let form : MetricForm t.metric_name n.step n.canonical =
            subst (λ s. MetricForm s n.step n.canonical) (sym x.same_metric)
              (parse_metric-MetricForm (trim_space unicode name) n.parsed) in
          (
            n.metric,
            ap metric_named (
                  extract-canonical t (subst (IsSpaceless unicode) (sym same) sp) x.same_step form
                    fixed2)
                ∙ n.named,
            sym x.same_category,
          )

      -- A parsed threshold's operator is the longest one that the trimmed expression begins with,
      -- and its target is what follows, trimmed and not empty.
      pub parse_threshold-SplitsAs :
          (name expr : Text) {t : Threshold floats}
          → parse_threshold unicode floats parse_float parse_int name expr ≡ ok t
          → (rest : Text) × SplitsAs (trim_space unicode expr) t.operator rest
            × (t.target_raw ≡ trim_space unicode rest)
            × (is_empty t.target_raw ≡ false)
      parse_threshold-SplitsAs name expr h =
          let n = parse_threshold-Named unicode floats parse_float parse_int name expr h in
          let x = n.expressed in (x.rest, x.splits, x.raw, x.nonempty)

      -- The target of a parsed threshold on a rate is not below 0 and not above 100, as the float
      -- comparison tells it.
      pub parse_threshold-rate_range :
          (name expr : Text) {t : Threshold floats}
          → parse_threshold unicode floats parse_float parse_int name expr ≡ ok t
          → t.category ≡ rate
          → (lt t.target_value (of_int (pos 0)) ≡ false)
            × (lt (of_int (pos 100)) t.target_value ≡ false)
      unfolding parse_target_value
      parse_threshold-rate_range name expr {t} h c =
          let n = parse_threshold-Named unicode floats parse_float parse_int name expr h in
          let x = n.expressed in
          let e : category_of n.metric ≡ rate = sym x.same_category ∙ c in
          let value : parse_target_value unicode floats parse_float parse_int rate t.target_raw
              ≡ ok (t.target_value, t.unit) =
            subst
              (λ k.
                parse_target_value unicode floats parse_float parse_int k t.target_raw
                ≡ ok (t.target_value, t.unit))
              e x.value in
          parse_rate-range unicode floats parse_float parse_int t.target_raw value
