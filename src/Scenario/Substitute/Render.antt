-- ===== src/Scenario/Substitute/Render.antt =====
-- SubstituteVariables of internal/scenario/substitute.go on the templates that are written from parts.
use daegsa.Prelude.{
  ℕ, zero, suc, ◌≤◌, Bool, false, List, [], ◌∷◌, ◌++◌, Option, none, some, ◌≡◌, refl, sym, ◌∙◌, ap,
  arith, ◌==◌, ◌||◌, any, All, length, length-append, Bool-cases, inl, inr, if◌then◌else◌,
}
use daegsa.Prelude.Text.{Text, codes, is_some}
use daegsa.Prelude.Result.{Result, ok, err, ◌>>=◌}
use daegsa.Scenario.Substitute.{
  SubstituteError, unresolved_variable, looked_up, Token, literal, escaped, variable, until_brace,
  next, write, replace, substitute_variables,
}

-- The text of a part: an escaped name has two dollars.
abbrev pub print : Token → Text
print (literal c) = c ∷ []
print (escaped name) = codes "$${" ++ name ++ codes "}"
print (variable name) = codes "${" ++ name ++ codes "}"

abbrev pub print_all : List Token → Text
print_all [] = []
print_all (t ∷ l) = print t ++ print_all l

-- A literal is no dollar, and a name has no closing brace.
abbrev pub IsPrintable : Token → Type 0
IsPrintable (literal c) = (c == b'$') ≡ false
IsPrintable (escaped name) = All (λ c. (c == b'}') ≡ false) name
IsPrintable (variable name) = All (λ c. (c == b'}') ≡ false) name

until_brace-append :
    (name s : Text)
    → All (λ c. (c == b'}') ≡ false) name
    → until_brace ((name ++ codes "}") ++ s) ≡ some (name, s)
until_brace-append [] s h = refl
until_brace-append (c ∷ name) s h = rw (h.0, until_brace-append name s h.1) refl

next-print : (t : Token) (s : Text) → IsPrintable t → next (print t ++ s) ≡ some (t, s)
unfolding next
next-print (literal c) s h = rw h refl
next-print (escaped name) s h = rw (until_brace-append name s h) refl
next-print (variable name) s h = rw (until_brace-append name s h) refl

-- A part is not empty.
print-length : (t : Token) → 1 ≤ length (print t)
print-length (literal c) = omega arith
print-length (escaped name) = omega arith
print-length (variable name) = omega arith

neither : (a b : Bool) → (a || b) ≡ false → (a ≡ false) × (b ≡ false)
neither a b h = ground arith

abbrev value_or_empty : Option Text → Text
value_or_empty none = []
value_or_empty (some value) = value

-- The text, unless a variable is missing.
abbrev pub unless_missing : Option Text → Text → Result SubstituteError Text
unless_missing none s = ok s
unless_missing (some name) s = err (unresolved_variable name)

module _ (vars : Text → Option Text) where
  -- What a part becomes, where a variable has a value: an escaped name loses one of its dollars.
  abbrev pub rendering : Token → Text
  rendering (literal c) = c ∷ []
  rendering (escaped name) = codes "${" ++ name ++ codes "}"
  rendering (variable name) = value_or_empty (vars name)

  abbrev pub rendering_all : List Token → Text
  rendering_all [] = []
  rendering_all (t ∷ l) = rendering t ++ rendering_all l

  -- The first variable that has no value.
  abbrev pub first_missing : List Token → Option Text
  first_missing [] = none
  first_missing (literal c ∷ l) = first_missing l
  first_missing (escaped name ∷ l) = first_missing l
  first_missing (variable name ∷ l) = if is_some (vars name) then first_missing l else some name

  -- The values of the parts, one after another, or the first variable that has none.
  abbrev values : List Token → Result SubstituteError Text
  values [] = ok []
  values (t ∷ l) = write vars t >>= λ out. values l >>= λ more. ok (out ++ more)

  replace-nil : (n : ℕ) → replace vars n [] ≡ ok []
  unfolding replace next
  replace-nil zero = refl
  replace-nil (suc n) = refl

  replace-next :
      (n : ℕ) (s : Text) {t : Token} {rest : Text}
      → next s ≡ some (t, rest)
      → replace vars (suc n) s
        ≡ (write vars t >>= λ out. replace vars n rest >>= λ more. ok (out ++ more))
  unfolding replace
  replace-next n s e = rw (replace, e) refl

  replace-print_all :
      (n : ℕ) (l : List Token)
      → All IsPrintable l
      → length (print_all l) ≤ n
      → replace vars n (print_all l) ≡ values l
  unfolding replace
  replace-print_all n [] h fuel = replace-nil n
  replace-print_all zero (t ∷ l) h fuel =
      absurd (omega (arith, fuel, print-length t, length-append (print t) (print_all l)))
  replace-print_all (suc n) (t ∷ l) h fuel =
      let enough : length (print_all l) ≤ n =
        omega (arith, fuel, print-length t, length-append (print t) (print_all l)) in
      replace-next n (print t ++ print_all l) (next-print t (print_all l) h.0)
      ∙ ap (λ r. write vars t >>= λ out. r >>= λ more. ok (out ++ more))
          (replace-print_all n l h.1 enough)

  -- A template without a dollar is its own value.
  replace-plain :
      (n : ℕ) (s : Text) → any (λ c. c == b'$') s ≡ false → length s ≤ n → replace vars n s ≡ ok s
  unfolding replace next
  replace-plain n [] h fuel = replace-nil n
  replace-plain zero (c ∷ s) h fuel = absurd (omega (arith, fuel))
  replace-plain (suc n) (c ∷ s) h fuel =
      let (first, rest) = neither (c == b'$') _ h in
      rw (first, replace-plain n s rest (omega (arith, fuel))) refl

  values-literal :
      (m : Option Text) (r s : Text) (o : Result SubstituteError Text)
      → o ≡ unless_missing m s
      → (o >>= λ more. ok (r ++ more)) ≡ unless_missing m (r ++ s)
  values-literal none r s o e = rw e refl
  values-literal (some name) r s o e = rw e refl

  values-variable :
      (name : Text) (v : Option Text) (m : Option Text) (s : Text) (o : Result SubstituteError Text)
      → o ≡ unless_missing m s
      → (looked_up name v >>= λ out. o >>= λ more. ok (out ++ more))
        ≡ unless_missing (if is_some v then m else some name) (value_or_empty v ++ s)
  values-variable name none m s o e = refl
  values-variable name (some value) m s o e = values-literal m value s o e

  values-rendering_all :
      (l : List Token) → values l ≡ unless_missing (first_missing l) (rendering_all l)
  values-rendering_all [] = refl
  values-rendering_all (literal c ∷ l) =
      values-literal (first_missing l) (c ∷ []) (rendering_all l) (values l)
        (values-rendering_all l)
  values-rendering_all (escaped name ∷ l) =
      values-literal (first_missing l) (codes "${" ++ name ++ codes "}") (rendering_all l)
        (values l) (values-rendering_all l)
  values-rendering_all (variable name ∷ l) =
      values-variable name (vars name) (first_missing l) (rendering_all l) (values l)
        (values-rendering_all l)

  substitute_variables-values :
      (l : List Token) → All IsPrintable l → substitute_variables vars (print_all l) ≡ values l
  unfolding substitute_variables
  substitute_variables-values l h = elim (Bool-cases (any (λ c. c == b'$') (print_all l))) [
    | inl e ↦ rw e (replace-print_all (length (print_all l)) l h (omega arith))
    | inr e ↦ rw e (
        sym (replace-plain (length (print_all l)) (print_all l) e (omega arith))
        ∙ replace-print_all (length (print_all l)) l h (omega arith))
  ]

  -- A template that is written from parts, which are code points other than a dollar, escaped names and
  -- variables, gives the code points, the escaped names with one dollar in place of two, and the values
  -- of the variables, in order, when every variable has a value, and otherwise the error that names the
  -- first variable that has none.
  pub substitute_variables-print_all :
      (l : List Token)
      → All IsPrintable l
      → substitute_variables vars (print_all l) ≡ unless_missing (first_missing l) (rendering_all l)
  substitute_variables-print_all l h = substitute_variables-values l h ∙ values-rendering_all l
