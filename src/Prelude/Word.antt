-- ===== src/Prelude/Word.antt =====
-- int64. A signed value that is ordered or divided is an integer that `wrap64` brings back into
-- range after each operation. A counter that is only added to is its bit pattern below 2 ^ 64.
use Prim.Native.Nat.{ℕ, ◌+◌, ◌-◌, ◌%◌, ◌^◌}
use mathlib.Core.Path.{◌≡◌}
use mathlib.Core.Bool.{Bool, ◌&&◌}
use native.Mathlib.Omega.{arith}
use daegsa.Prelude.Tests.{ltb, if◌then◌else◌}
use daegsa.Prelude.Int.{ℤ, pos, negsuc, ◌≤ℤ◌}

abbrev pub i64_mod : ℕ
i64_mod = 2 ^ 64

abbrev pub max_i64 : ℕ
max_i64 = 2 ^ 63 - 1

-- The values of an int64.
abbrev pub InI64 : ℤ → Type 0
InI64 z = (negsuc max_i64 ≤ℤ z) × (z ≤ℤ pos max_i64)

-- The signed value of a bit pattern.
abbrev pub of_pattern : ℕ → ℤ
of_pattern u = if ltb u (2 ^ 63) then pos u else negsuc (i64_mod - 1 - u)

-- Two's complement wrap-around.
unfoldable pub wrap64 : ℤ → ℤ
wrap64 (pos n) = of_pattern (n % i64_mod)
wrap64 (negsuc n) = of_pattern (i64_mod - 1 - n % i64_mod)

pub wrap64-InI64 : (z : ℤ) → InI64 (wrap64 z)
unfolding wrap64
wrap64-InI64 (pos n) = ground arith
wrap64-InI64 (negsuc n) = ground arith

-- A value in range is left as it is.
pub wrap64_id : (z : ℤ) → InI64 z → wrap64 z ≡ z
unfolding wrap64
wrap64_id (pos n) h = ground arith
wrap64_id (negsuc n) h = ground arith

-- Addition of bit patterns.
abbrev pub add64 : ℕ → ℕ → ℕ
add64 a b = (a + b) % i64_mod

-- `c++`
abbrev pub inc64 : ℕ → ℕ
inc64 c = add64 c 1

-- `0 < c` of a counter's bit pattern, read as a signed number.
abbrev pub is_positive64 : ℕ → Bool
is_positive64 c = ltb 0 c && ltb c (2 ^ 63)
