-- ===== src/Config/Bytes.antt =====
-- ParseByteSize of internal/config/types.go. unicode.IsDigit on one byte holds of the ten digits.
use daegsa.Prelude.{
  ℕ, Bool, List, [], ◌∷◌, Option, none, some, ◌||◌, ◌&&◌, ◌==◌, leb, any, is_empty, if◌then◌else◌,
}
use daegsa.Prelude.Int.{ℤ, pos}
use daegsa.Prelude.Float.{Floats}
use daegsa.Prelude.Text.{Text, codes, text_eq}
use daegsa.Prelude.Strings.{Unicode, to_lower, trim_space}

abbrev is_number_char : ℕ → Bool
is_number_char c = (leb b'0' c && leb c b'9') || c == b'.'

-- The digits and dots that a text begins with, and the rest.
abbrev pub number_prefix : Text → Text × Text
number_prefix [] = ([], [])
number_prefix (c ∷ s) =
    let rest = number_prefix s in if is_number_char c then (c ∷ rest.0, rest.1) else ([], c ∷ s)

abbrev is_unit : Text → List Text → Bool
is_unit u l = any (λ n. text_eq u n) l

-- The bytes of a unit in lower case.
abbrev unit_multiplier : Text → Option ℕ
unit_multiplier u =
    if is_unit u ([] ∷ codes "b" ∷ codes "bytes" ∷ [])
    then some 1
    else if is_unit u (codes "k" ∷ codes "kb" ∷ [])
    then some 1000
    else if is_unit u (codes "kib" ∷ [])
    then some 1024
    else if is_unit u (codes "m" ∷ codes "mb" ∷ [])
    then some 1_000_000
    else if is_unit u (codes "mib" ∷ [])
    then some 1_048_576
    else if is_unit u (codes "g" ∷ codes "gb" ∷ [])
    then some 1_000_000_000
    else if is_unit u (codes "gib" ∷ [])
    then some 1_073_741_824
    else none

module _ (unicode : Unicode) (floats : Floats) (parse_float : Text → Option floats.Float) where
  open floats use {Float, of_int, mul, lt, to_int64}

  -- A number of which the value is not negative, times a unit.
  abbrev byte_total : Option Float → Option ℕ → Option ℤ
  byte_total none m = none
  byte_total (some val) none = none
  byte_total (some val) (some m) =
      if lt val (of_int (pos 0)) then none else some (to_int64 (mul val (of_int (pos m))))

  -- `none` is an error.
  unfoldable pub parse_byte_size : Text → Option ℤ
  parse_byte_size s =
      let parts = number_prefix (trim_space unicode s) in
      if is_empty parts.0
      then none
      else byte_total (parse_float parts.0)
          (unit_multiplier (to_lower unicode (trim_space unicode parts.1)))
