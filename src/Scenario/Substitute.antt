-- ===== src/Scenario/Substitute.antt =====
-- internal/scenario/substitute.go. The three signs that the loop looks for are ASCII, so going by code
-- points finds what going by bytes finds. `next` is one round of the loop, apart from what it writes:
-- the rounds are at most as many as the template has code points.
pub mod Render
pub mod Rounds
use daegsa.Prelude.{
  ℕ, zero, suc, Bool, List, [], ◌∷◌, ◌++◌, Option, none, some, ◌==◌, not, any, length,
  if◌then◌else◌,
}
use daegsa.Prelude.Text.{Text, codes, strip_prefix}
use daegsa.Prelude.Result.{Result, ok, err, ◌>>=◌}

pub data SubstituteError : Type 0 where
  unresolved_variable : Text → SubstituteError

pub data Token : Type 0 where
  literal : ℕ → Token
  escaped : Text → Token
  variable : Text → Token

abbrev pub before_brace : ℕ → Option (Text × Text) → Option (Text × Text)
before_brace c none = none
before_brace c (some (name, rest)) = some (c ∷ name, rest)

-- What stands before the first closing brace, and what follows it.
abbrev pub until_brace : Text → Option (Text × Text)
until_brace [] = none
until_brace (c ∷ s) =
    let rest = until_brace s in if c == b'}' then some ([], s) else before_brace c rest

abbrev pub with_name : (Text → Token) → Option (Text × Text) → Option (Token × Text)
with_name token none = none
with_name token (some (name, rest)) = some (token name, rest)

abbrev pub named : (Text → Token) → Option Text → Option (Token × Text)
named token none = none
named token (some s) = with_name token (until_brace s)

abbrev pub or_else : Option (Token × Text) → Token × Text → Token × Text
or_else none other = other
or_else (some found) other = found

-- What stands after a dollar.
abbrev pub after_dollar : Text → Token × Text
after_dollar s =
    or_else (named escaped (strip_prefix s (codes "${")))
      (or_else (named variable (strip_prefix s (codes "{"))) (literal b'$', s))

unfoldable pub next : Text → Option (Token × Text)
next [] = none
next (c ∷ s) = some (if c == b'$' then after_dollar s else (literal c, s))

abbrev looked_up : Text → Option Text → Result SubstituteError Text
looked_up name none = err (unresolved_variable name)
looked_up name (some value) = ok value

module _ (vars : Text → Option Text) where
  -- What a round writes.
  abbrev pub write : Token → Result SubstituteError Text
  write (literal c) = ok (c ∷ [])
  write (escaped name) = ok (codes "${" ++ name ++ codes "}")
  write (variable name) = looked_up name (vars name)

  unfoldable pub replace : ℕ → Text → Result SubstituteError Text
  replace zero s = ok []
  replace (suc n) s = elim (next s) [
    | none ↦ ok []
    | some (token, rest) ↦ write token >>= λ out. replace n rest >>= λ more. ok (out ++ more)
  ]

  unfoldable pub substitute_variables : Text → Result SubstituteError Text
  substitute_variables template =
      if not (any (λ c. c == b'$') template)
      then ok template
      else replace (length template) template
