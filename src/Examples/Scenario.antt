-- ===== src/Examples/Scenario.antt =====
-- A template with a variable, an escaped name and plain text.
use daegsa.Prelude.{List, [], ◌∷◌, Option, none, some, ◌≡◌, refl, if◌then◌else◌}
use daegsa.Prelude.Text.{Text, codes, text_eq}
use daegsa.Prelude.Result.{ok}
use daegsa.Scenario.Substitute.{Token, literal, escaped, variable, substitute_variables}
use daegsa.Scenario.Substitute.Render.{substitute_variables-print_all}

abbrev vars : Text → Option Text
vars name = if text_eq name (codes "id") then some (codes "7") else none

abbrev template : List Token
template = literal b'/' ∷ variable (codes "id") ∷ literal b'?' ∷ escaped (codes "x") ∷ []

substitute_variables-print_all_example :
    substitute_variables vars (codes "/${id}?$${x}") ≡ ok (codes "/7?${x}")
substitute_variables-print_all_example =
    substitute_variables-print_all vars template
      (refl, ((refl, (refl, tt)), (refl, ((refl, tt), tt))))
