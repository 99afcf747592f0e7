-- ===== src/Prelude/Float.antt =====
-- float64 is taken as a type with its operations, about which nothing is assumed. A theorem that
-- needs a law of one takes it as a hypothesis.
use mathlib.Core.Bool.{Bool}
use daegsa.Prelude.Int.{ℤ, pos, quot, rem}

pub record Floats : Type 1 where
  pub Float : Type 0
  pub of_int : ℤ → Float
  pub add : Float → Float → Float
  pub sub : Float → Float → Float
  pub mul : Float → Float → Float
  pub div : Float → Float → Float
  pub eq : Float → Float → Bool
  pub lt : Float → Float → Bool
  pub le : Float → Float → Bool
  pub is_nan : Float → Bool
  pub is_inf : Float → Bool
  pub abs : Float → Float
  pub to_int64 : Float → ℤ

-- d.Seconds() of a time.Duration in nanoseconds.
unfoldable pub seconds : (f : Floats) → ℤ → f.Float
seconds f d =
    f.add (f.of_int (quot d (pos 1_000_000_000)))
      (f.div (f.of_int (rem d (pos 1_000_000_000))) (f.of_int (pos 1_000_000_000)))
