-- ===== src/Scenario/Substitute/Rounds.antt =====
-- The loop of SubstituteVariables of internal/scenario/substitute.go ends: a round makes the template
-- shorter, so as many rounds as it has code points are enough.
use daegsa.Prelude.{
  ℕ, zero, suc, ◌≤◌, [], ◌∷◌, ◌++◌, Option, none, some, ◌≡◌, refl, sym, ◌∙◌, ap, arith, ◌==◌,
  length, length-append, Bool-cases, inl, inr, if◌then◌else◌,
}
use daegsa.Prelude.Text.{Text, codes, strip_prefix, strip_prefix_sound}
use daegsa.Prelude.Result.{Result, ok, ◌>>=◌}
use daegsa.Scenario.Substitute.{
  SubstituteError, Token, literal, escaped, variable, before_brace, until_brace, with_name, named,
  or_else, after_dollar, next, write, replace,
}

-- What is left after a name is shorter than what it was found in.
abbrev IsShorter : ℕ → Option (Text × Text) → Type 0
IsShorter n none = Unit
IsShorter n (some (name, rest)) = length rest ≤ n

before_brace-IsShorter :
    (n c : ℕ) (o : Option (Text × Text)) → IsShorter n o → IsShorter (suc n) (before_brace c o)
before_brace-IsShorter n c none h = tt
before_brace-IsShorter n c (some (name, rest)) h = omega (arith, h)

until_brace-IsShorter : (s : Text) → IsShorter (length s) (until_brace s)
until_brace-IsShorter [] = tt
until_brace-IsShorter (c ∷ s) = elim (Bool-cases (c == b'}')) [
  | inl e ↦ rw e (omega arith)
  | inr e ↦ rw e (before_brace-IsShorter (length s) c (until_brace s) (until_brace-IsShorter s))
]

abbrev LeavesAtMost : ℕ → Option (Token × Text) → Type 0
LeavesAtMost n none = Unit
LeavesAtMost n (some (token, rest)) = length rest ≤ n

with_name-LeavesAtMost :
    (token : Text → Token) (n : ℕ) (o : Option (Text × Text))
    → IsShorter n o
    → LeavesAtMost n (with_name token o)
with_name-LeavesAtMost token n none h = tt
with_name-LeavesAtMost token n (some (name, rest)) h = h

LeavesAtMost-weaken :
    (m n : ℕ) (o : Option (Token × Text)) → m ≤ n → LeavesAtMost m o → LeavesAtMost n o
LeavesAtMost-weaken m n none le h = tt
LeavesAtMost-weaken m n (some (token, rest)) le h = omega (arith, le, h)

named-LeavesAtMost :
    (token : Text → Token) (s p : Text) → LeavesAtMost (length s) (named token (strip_prefix s p))
named-LeavesAtMost token s p = go (strip_prefix s p) refl
  where
    go : (o : Option Text) → strip_prefix s p ≡ o → LeavesAtMost (length s) (named token o)
    go none e = tt
    go (some r) e =
        let split = strip_prefix_sound s p e in
        let shorter : length r ≤ length s =
          omega (arith, ap (λ t. length t) split, length-append p r) in
        LeavesAtMost-weaken (length r) (length s) (with_name token (until_brace r)) shorter
          (with_name-LeavesAtMost token (length r) (until_brace r) (until_brace-IsShorter r))

or_else-LeavesAtMost :
    (n : ℕ) (o : Option (Token × Text)) (p : Token × Text)
    → LeavesAtMost n o
    → length p.1 ≤ n
    → length (or_else o p).1 ≤ n
or_else-LeavesAtMost n none p h le = le
or_else-LeavesAtMost n (some (token, rest)) p h le = h

after_dollar-length : (s : Text) → length (after_dollar s).1 ≤ length s
after_dollar-length s =
    or_else-LeavesAtMost (length s) (named escaped (strip_prefix s (codes "${"))) _
      (named-LeavesAtMost escaped s (codes "${"))
      (or_else-LeavesAtMost (length s) (named variable (strip_prefix s (codes "{")))
        (literal b'$', s) (named-LeavesAtMost variable s (codes "{")) (omega arith))

module _ (vars : Text → Option Text) where
  -- The rounds after the first, on what it left.
  abbrev continue_with : ℕ → Token × Text → Result SubstituteError Text
  continue_with n (t, rest) =
      write vars t >>= λ out. replace vars n rest >>= λ more. ok (out ++ more)

  replace-cons :
      (n c : ℕ) (s : Text)
      → replace vars (suc n) (c ∷ s)
        ≡ continue_with n (if c == b'$' then after_dollar s else (literal c, s))
  unfolding replace next
  replace-cons n c s = refl

  left-length :
      (c : ℕ) (s : Text)
      → length (if c == b'$' then after_dollar s else (literal c, s)).1 ≤ length s
  left-length c s = elim (Bool-cases (c == b'$')) [
    | inl e ↦ rw e (after_dollar-length s)
    | inr e ↦ rw e (omega arith)
  ]

  -- Two numbers of rounds that are no less than the length of the template give the same result: the
  -- loop has ended before either of them is used up.
  pub replace-enough :
      (m n : ℕ) (s : Text) → length s ≤ m → length s ≤ n → replace vars m s ≡ replace vars n s
  unfolding replace next
  replace-enough zero zero [] hm hn = refl
  replace-enough zero (suc n) [] hm hn = refl
  replace-enough (suc m) zero [] hm hn = refl
  replace-enough (suc m) (suc n) [] hm hn = refl
  replace-enough zero n (c ∷ s) hm hn = absurd (omega (arith, hm))
  replace-enough (suc m) zero (c ∷ s) hm hn = absurd (omega (arith, hn))
  replace-enough (suc m) (suc n) (c ∷ s) hm hn =
      let left : Token × Text = if c == b'$' then after_dollar s else (literal c, s) in
      let short : length left.1 ≤ length s = left-length c s in
      replace-cons m c s
      ∙ (ap (λ r. write vars left.0 >>= λ out. r >>= λ more. ok (out ++ more))
            (replace-enough m n left.1 (omega (arith, short, hm)) (omega (arith, short, hn)))
          ∙ sym (replace-cons n c s))
