-- ===== src/Threshold/Parse/Shape.antt =====
-- What a threshold that was parsed looks like, and that the evaluator measures its metric.
use daegsa.Prelude.{
  ℕ, Bool, true, false, List, [], ◌∷◌, ◌++◌, Option, none, some, ◌≡◌, refl, sym, ap, ◌∙◌, subst,
  arith, is_empty, inl, inr, ◌==◌, some_inj, Bool-cases, if◌then◌else◌,
}
use daegsa.Prelude.Int.{ℤ, pos}
use daegsa.Prelude.Float.{Floats}
use daegsa.Prelude.Text.{Text, is_some, codes, strip_prefix, strip_prefix_sound, has_prefix}
use daegsa.Prelude.Strings.{Unicode, trim_space, split_on}
use daegsa.Prelude.Result.{Result, ok, err, ◌>>=◌, ok-injective, unless_err}
use daegsa.Threshold.Types.{
  MetricCategory, Metric, metric_named, category_of, Threshold, op_lt, op_lte, op_gt, op_gte, op_eq,
  op_ne,
}
use daegsa.Threshold.Evaluate.{after_last}
use daegsa.Threshold.Parse.{
  ThresholdError, no_operator, no_target, unknown_metric, required, operators, operator_among,
  operator_or, parse_metric, parse_rate, parse_target_value, parse_expression, parse_threshold,
}

-- An operator that is one of the six, and what it leaves of an expression: no "=" follows "<" or ">".
pub data SplitsAs (expr : Text) : Text → Text → Type 0 where
  lte : {rest : Text} → expr ≡ op_lte ++ rest → SplitsAs expr op_lte rest
  gte : {rest : Text} → expr ≡ op_gte ++ rest → SplitsAs expr op_gte rest
  equal : {rest : Text} → expr ≡ op_eq ++ rest → SplitsAs expr op_eq rest
  unequal : {rest : Text} → expr ≡ op_ne ++ rest → SplitsAs expr op_ne rest
  less :
      {rest : Text}
      → expr ≡ op_lt ++ rest
      → has_prefix rest (codes "=") ≡ false
      → SplitsAs expr op_lt rest
  greater :
      {rest : Text}
      → expr ≡ op_gt ++ rest
      → has_prefix rest (codes "=") ≡ false
      → SplitsAs expr op_gt rest

required-ok {ℓ} :
    {A : Type ℓ} (e : ThresholdError) (o : Option A) {a : A} → required e o ≡ ok a → o ≡ some a
required-ok e none h = cc
required-ok e (some a) h = ap some (ok-injective h)

-- The last part of a text that is split, and what follows its last separator.
abbrev pub last_or : Text → List Text → Text
last_or p [] = p
last_or p (q ∷ qs) = last_or q qs

pub data LastPart (d : ℕ) (s : Text) : Type 0 where
  whole : after_last d s ≡ none → split_on d s ≡ s ∷ [] → LastPart d s
  part :
      (p q : Text) (qs : List Text)
      → split_on d s ≡ p ∷ q ∷ qs
      → after_last d s ≡ some (last_or q qs)
      → LastPart d s

LastPart-cons : (d c : ℕ) (s : Text) → LastPart d s → (b : Bool) → (c == d) ≡ b → LastPart d (c ∷ s)
LastPart-cons d c s (whole a e) true h = part [] s [] (rw (h, e) refl) (rw (a, h) refl)
LastPart-cons d c s (whole a e) false h = whole (rw (a, h) refl) (rw (h, e) refl)
LastPart-cons d c s (part p q qs e a) true h = part [] p (q ∷ qs) (rw (h, e) refl) (rw a refl)
LastPart-cons d c s (part p q qs e a) false h = part (c ∷ p) q qs (rw (h, e) refl) (rw a refl)

pub split_on-LastPart : (d : ℕ) (s : Text) → LastPart d s
split_on-LastPart d [] = whole refl refl
split_on-LastPart d (c ∷ s) = LastPart-cons d c s (split_on-LastPart d s) (c == d) refl

-- Where a text has three parts, the third follows its last separator.
pub third_part :
    (d : ℕ) (s : Text) {p q r : Text}
    → split_on d s ≡ p ∷ q ∷ r ∷ []
    → LastPart d s
    → after_last d s ≡ some r
third_part d s h (whole a e) = ground arith
third_part d s {p} {q} {r} h (part p' q' qs e a) = a ∙ ap some (ap last_part (sym e ∙ h))
  where
    last_part : List Text → Text
    last_part [] = []
    last_part (x ∷ xs) = last_or x xs

no_equals :
    (op op_equals expr rest : Text)
    → ((s : Text) → strip_prefix (op ++ s) op_equals ≡ strip_prefix s (codes "="))
    → expr ≡ op ++ rest
    → strip_prefix expr op_equals ≡ none
    → has_prefix rest (codes "=") ≡ false
no_equals op op_equals expr rest longer e h =
    ap is_some (sym (longer rest) ∙ ap (λ s. strip_prefix s op_equals) (sym e) ∙ h)

operator_among-SplitsAs :
    (expr : Text) {op rest : Text}
    → operator_among operators expr ≡ some (op, rest)
    → SplitsAs expr op rest
operator_among-SplitsAs expr h =
    go (strip_prefix expr op_lte) (strip_prefix expr op_gte) (strip_prefix expr op_eq)
      (strip_prefix expr op_ne) (strip_prefix expr op_lt) (strip_prefix expr op_gt) refl refl refl
      refl refl refl h
  where
    found :
        {a b c d : Text}
        → SplitsAs expr a b
        → ◌≡◌ {A = Option (Text × Text)} (some (a, b)) (some (c, d))
        → SplitsAs expr c d
    found w h = subst (λ (p : Text × Text). SplitsAs expr p.0 p.1) (some_inj h) w

    go :
        (o1 o2 o3 o4 o5 o6 : Option Text) {op rest : Text}
        → strip_prefix expr op_lte ≡ o1
        → strip_prefix expr op_gte ≡ o2
        → strip_prefix expr op_eq ≡ o3
        → strip_prefix expr op_ne ≡ o4
        → strip_prefix expr op_lt ≡ o5
        → strip_prefix expr op_gt ≡ o6
        → operator_or op_lte o1 (
            operator_or op_gte o2 (
              operator_or op_eq o3
                (operator_or op_ne o4 (operator_or op_lt o5 (operator_or op_gt o6 none)))))
          ≡ some (op, rest)
        → SplitsAs expr op rest
    go (some r) _ _ _ _ _ e1 e2 e3 e4 e5 e6 h = found (lte (strip_prefix_sound expr op_lte e1)) h
    go none (some r) _ _ _ _ e1 e2 e3 e4 e5 e6 h = found (gte (strip_prefix_sound expr op_gte e2)) h
    go none none (some r) _ _ _ e1 e2 e3 e4 e5 e6 h =
        found (equal (strip_prefix_sound expr op_eq e3)) h
    go none none none (some r) _ _ e1 e2 e3 e4 e5 e6 h =
        found (unequal (strip_prefix_sound expr op_ne e4)) h
    go none none none none (some r) _ e1 e2 e3 e4 e5 e6 h =
        let e = strip_prefix_sound expr op_lt e5 in
        found (less e (no_equals op_lt op_lte expr r (λ s. refl) e e1)) h
    go none none none none none (some r) e1 e2 e3 e4 e5 e6 h =
        let e = strip_prefix_sound expr op_gt e6 in
        found (greater e (no_equals op_gt op_gte expr r (λ s. refl) e e2)) h
    go none none none none none none e1 e2 e3 e4 e5 e6 h = cc

module _ (unicode : Unicode) (floats : Floats) where
  open floats use {Float, of_int, lt}

  module _ (parse_float : Text → Option Float) (parse_int : Text → Option ℤ) where
    pub parse_rate-range :
        (target : Text) {v : Float} {u : Text}
        → parse_rate unicode floats parse_float parse_int target ≡ ok (v, u)
        → (lt v (of_int (pos 0)) ≡ false) × (lt (of_int (pos 100)) v ≡ false)
    unfolding parse_rate
    parse_rate-range target h = ground arith

    -- What parse_expression makes of its arguments.
    pub record Expressed (trimmed_metric step : Text) (category : MetricCategory)
        (trimmed_expr : Text) (t : Threshold floats) : Type 0 where
      pub same_metric : t.metric_name ≡ trimmed_metric
      pub same_step : t.step_name ≡ step
      pub same_category : t.category ≡ category
      pub rest : Text
      pub splits : SplitsAs trimmed_expr t.operator rest
      pub raw : t.target_raw ≡ trim_space unicode rest
      pub nonempty : is_empty t.target_raw ≡ false
      pub value :
          parse_target_value unicode floats parse_float parse_int category t.target_raw
          ≡ ok (t.target_value, t.unit)

    parse_expression-Expressed :
        (trimmed_metric step : Text) (category : MetricCategory) (trimmed_expr : Text)
        {t : Threshold floats}
        → parse_expression unicode floats parse_float parse_int trimmed_metric step category
            trimmed_expr
          ≡ ok t
        → Expressed trimmed_metric step category trimmed_expr t
    unfolding parse_expression
    parse_expression-Expressed trimmed_metric step category trimmed_expr {t} h =
        with_operator (operator_among operators trimmed_expr) refl (unless_err _ _ h)
      where
        build : Text → Text → Float → Text → Threshold floats
        build op rest value unit = record {
          metric_name = trimmed_metric;
          step_name = step;
          category = category;
          operator = op;
          target_raw = trim_space unicode rest;
          target_value = value;
          unit = unit;
          raw_expression = trimmed_expr;
        }

        valued : Text → Text → Float × Text → Result ThresholdError (Threshold floats)
        valued op rest (value, unit) = ok (build op rest value unit)

        after_operator : Text × Text → Result ThresholdError (Threshold floats)
        after_operator (op, rest) =
            if is_empty (trim_space unicode rest)
            then err no_target
            else (parse_target_value unicode floats parse_float parse_int category
                  (trim_space unicode rest)
                >>= valued op rest)

        with_value :
            (op rest : Text) (r : Result ThresholdError (Float × Text))
            → SplitsAs trimmed_expr op rest
            → is_empty (trim_space unicode rest) ≡ false
            → parse_target_value unicode floats parse_float parse_int category
                (trim_space unicode rest)
              ≡ r
            → (r >>= valued op rest) ≡ ok t
            → Expressed trimmed_metric step category trimmed_expr t
        with_value op rest (err x) sp ne e h = cc
        with_value op rest (ok (value, unit)) sp ne e h =
            subst (λ t. Expressed trimmed_metric step category trimmed_expr t) (ok-injective h)
              (record {
                same_metric = refl;
                same_step = refl;
                same_category = refl;
                rest = rest;
                splits = sp;
                raw = refl;
                nonempty = ne;
                value = e;
              })

        with_operator :
            (o : Option (Text × Text))
            → operator_among operators trimmed_expr ≡ o
            → (required no_operator o >>= after_operator) ≡ ok t
            → Expressed trimmed_metric step category trimmed_expr t
        with_operator none e h = cc
        with_operator (some (op, rest)) e h =
            elim (Bool-cases (is_empty (trim_space unicode rest))) [
              | inl empty ↦ cc
              | inr full ↦
                  with_value op rest _ (operator_among-SplitsAs trimmed_expr e) full refl
                    (unless_err _ _ h)
            ]

    -- What parse_threshold finds before the expression.
    pub record Named (trimmed_metric expr : Text) (t : Threshold floats) : Type 0 where
      pub step : Text
      pub canonical : Text
      pub metric : Metric
      pub parsed : parse_metric unicode trimmed_metric ≡ ok (step, canonical)
      pub named : metric_named canonical ≡ some metric
      pub expressed : Expressed trimmed_metric step (category_of metric) (trim_space unicode expr) t

    pub parse_threshold-Named :
        (name expr : Text) {t : Threshold floats}
        → parse_threshold unicode floats parse_float parse_int name expr ≡ ok t
        → Named (trim_space unicode name) expr t
    unfolding parse_threshold
    parse_threshold-Named name expr {t} h =
        with_metric (parse_metric unicode (trim_space unicode name)) refl (unless_err _ _ h)
      where
        after_name : Text → Metric → Result ThresholdError (Threshold floats)
        after_name step metric =
            parse_expression unicode floats parse_float parse_int (trim_space unicode name) step
              (category_of metric) (trim_space unicode expr)

        after_metric : Text × Text → Result ThresholdError (Threshold floats)
        after_metric (step, canonical) =
            required unknown_metric (metric_named canonical) >>= after_name step

        with_name :
            (step canonical : Text) (o : Option Metric)
            → parse_metric unicode (trim_space unicode name) ≡ ok (step, canonical)
            → metric_named canonical ≡ o
            → (required unknown_metric o >>= after_name step) ≡ ok t
            → Named (trim_space unicode name) expr t
        with_name step canonical none p e h = cc
        with_name step canonical (some m) p e h = record {
          step = step;
          canonical = canonical;
          metric = m;
          parsed = p;
          named = e;
          expressed = parse_expression-Expressed _ step (category_of m) _ h;
        }

        with_metric :
            (r : Result ThresholdError (Text × Text))
            → parse_metric unicode (trim_space unicode name) ≡ r
            → (r >>= after_metric) ≡ ok t
            → Named (trim_space unicode name) expr t
        with_metric (err x) p h = cc
        with_metric (ok (step, canonical)) p h = with_name step canonical _ p refl h
