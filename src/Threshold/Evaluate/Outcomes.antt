-- ===== src/Threshold/Evaluate/Outcomes.antt =====
-- What an evaluation returns: a result for each threshold, a verdict on all of them, and the
-- meaning of the operators.
use daegsa.Prelude.{
  true, false, List, [], ◌∷◌, ◌++◌, map, Option, none, some, not, ◌≡◌, ◌↔◌, refl, sym, ◌∙◌, arith,
  All, append_assoc, append-nil,
}
use daegsa.Prelude.Float.{Floats}
use daegsa.Prelude.Text.{Text}
use daegsa.Threshold.Types.{
  Metric, metric_name, metric_named, Threshold, Evaluation, op_lt, op_lte, op_gt, op_gte, op_eq,
  op_ne,
}
use daegsa.Threshold.Evaluate.{
  MetricsSnapshot, EvaluationContext, float_epsilon, compare_values, evaluate_one, evaluate_rest,
  evaluate_with_steps, Verdict,
}

-- Each canonical metric is found by its name.
pub metric_named-metric_name : (m : Metric) → metric_named (metric_name m) ≡ some m
unfolding metric_named
metric_named-metric_name m = ground arith

-- The thresholds that are not nil.
abbrev pub present {ℓ} : {A : Type ℓ} → List (Option A) → List A
present [] = []
present (none ∷ l) = present l
present (some a ∷ l) = a ∷ present l

module _ (floats : Floats) where
  open floats use {Float, add, sub, lt, le, abs, is_nan}

  abbrev pub Passed : Evaluation floats → Type 0
  Passed r = r.passed ≡ true

  All-Passed-snoc :
      (l : List (Evaluation floats)) (r : Evaluation floats)
      → All Passed (l ++ r ∷ []) ↔ (All Passed l × Passed r)
  All-Passed-snoc [] r = ground arith
  All-Passed-snoc (s ∷ l) r = ground (arith, All-Passed-snoc l r)

  -- What IEEE 754 says of comparisons of two values that are not NaN.
  pub record IsTotal : Type 0 where
    pub lt_not_le : (a b : Float) → is_nan a ≡ false → is_nan b ≡ false → lt a b ≡ not (le b a)

  -- Where comparisons are as IEEE 754 says and no compared value is NaN, "<" is the negation of ">=",
  -- ">" of "<=", and "!=" of "==".
  pub compare_values-complement :
      (total : IsTotal) (observed target : Float)
      → is_nan observed ≡ false
      → is_nan (sub target (float_epsilon floats)) ≡ false
      → is_nan (add target (float_epsilon floats)) ≡ false
      → is_nan (float_epsilon floats) ≡ false
      → is_nan (abs (sub observed target)) ≡ false
      → let holds = compare_values floats observed target in
        (holds op_lt ≡ not (holds op_gte))
        × (holds op_gt ≡ not (holds op_lte))
        × (holds op_ne ≡ not (holds op_eq))
  unfolding compare_values
  compare_values-complement total observed target ho hl hh he ha = (
    total.lt_not_le observed (sub target (float_epsilon floats)) ho hl,
    total.lt_not_le (add target (float_epsilon floats)) observed hh ho,
    total.lt_not_le (float_epsilon floats) (abs (sub observed target)) he ha,
  )

  module _ (fixed2 : Float → Text) where
    evaluate_rest-results :
        (root : MetricsSnapshot floats) (steps : Option (List (Text × MetricsSnapshot floats)))
        (ctx : EvaluationContext floats) (l : List (Option (Threshold floats)))
        (v : Verdict floats fixed2)
        → (evaluate_rest floats fixed2 root steps ctx l v).results
          ≡ v.results ++ map (evaluate_one floats fixed2 root steps ctx) (present l)
    unfolding evaluate_rest
    evaluate_rest-results root steps ctx [] v = sym (append-nil v.results)
    evaluate_rest-results root steps ctx (none ∷ l) v = evaluate_rest-results root steps ctx l v
    evaluate_rest-results root steps ctx (some t ∷ l) v =
        evaluate_rest-results root steps ctx l _
        ∙ append_assoc v.results (evaluate_one floats fixed2 root steps ctx t ∷ []) _

    pub IsJudged : Verdict floats fixed2 → Type 0
    IsJudged v = (v.all_passed ≡ true) ↔ All Passed v.results

    evaluate_rest-IsJudged :
        (root : MetricsSnapshot floats) (steps : Option (List (Text × MetricsSnapshot floats)))
        (ctx : EvaluationContext floats) (l : List (Option (Threshold floats)))
        (v : Verdict floats fixed2)
        → IsJudged v
        → IsJudged (evaluate_rest floats fixed2 root steps ctx l v)
    unfolding evaluate_rest IsJudged
    evaluate_rest-IsJudged root steps ctx [] v h = h
    evaluate_rest-IsJudged root steps ctx (none ∷ l) v h =
        evaluate_rest-IsJudged root steps ctx l v h
    evaluate_rest-IsJudged root steps ctx (some t ∷ l) v h =
        evaluate_rest-IsJudged root steps ctx l _
          (ground (arith, All-Passed-snoc v.results (evaluate_one floats fixed2 root steps ctx t)))

    -- Evaluation returns a result for each threshold that is not nil, in their order, and its
    -- verdict is a pass exactly when each of the results has passed; without thresholds it is a
    -- pass.
    pub evaluate_with_steps-verdict :
        (thresholds : List (Option (Threshold floats))) (root : MetricsSnapshot floats)
        (steps : Option (List (Text × MetricsSnapshot floats))) (ctx : EvaluationContext floats)
        → let v = evaluate_with_steps floats fixed2 thresholds root steps ctx in
          (v.results ≡ map (evaluate_one floats fixed2 root steps ctx) (present thresholds))
          × ((v.all_passed ≡ true) ↔ All Passed v.results)
    unfolding evaluate_with_steps IsJudged
    evaluate_with_steps-verdict [] root steps ctx = (refl, ground arith)
    evaluate_with_steps-verdict (t ∷ l) root steps ctx = (
      evaluate_rest-results root steps ctx (t ∷ l) _,
      evaluate_rest-IsJudged root steps ctx (t ∷ l) _ (ground arith),
    )
