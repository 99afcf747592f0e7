-- ===== src/Prelude/Text.antt =====
-- Texts as lists of code points, and the functions of Go's package strings that the program calls.
use Prim.Native.Nat.{ℕ, zero, suc, ◌+◌, ◌/◌, ◌%◌}
use Prim.Native.Char.{code}
use Prim.Native.String.{String}
use mathlib.Core.Path.{◌≡◌, refl}
use mathlib.Core.Bool.{Bool, true, false, ◌&&◌, ◌||◌}
use mathlib.Core.List.{List, [], ◌∷◌, ◌++◌}
use mathlib.Core.Option.{Option, none, some}
use native.Mathlib.Omega.{arith}
use daegsa.Prelude.Tests.{ltb, ◌==◌, if◌then◌else◌}

abbrev pub Text : Type 0
Text = List ℕ

-- The code points of a literal.
abbrev pub codes : String → Text
codes String.[] = []
codes (String.◌∷◌ c s) = code c ∷ codes s

abbrev pub text_eq : Text → Text → Bool
text_eq [] [] = true
text_eq [] (_ ∷ _) = false
text_eq (_ ∷ _) [] = false
text_eq (a ∷ s) (b ∷ t) = a == b && text_eq s t

pub text_eq_sound : (s t : Text) → text_eq s t ≡ true → s ≡ t
text_eq_sound [] [] h = refl
text_eq_sound [] (b ∷ t) h = ground arith
text_eq_sound (a ∷ s) [] h = ground arith
text_eq_sound (a ∷ s) (b ∷ t) h = ground (arith, text_eq_sound s t)

pub text_eq_refl : (s : Text) → text_eq s s ≡ true
text_eq_refl [] = refl
text_eq_refl (a ∷ s) = ground (arith, text_eq_refl s)

pub text_eq_complete : (s t : Text) → s ≡ t → text_eq s t ≡ true
text_eq_complete s t h = rw h (text_eq_refl t)

-- strings.HasPrefix s p, and what follows the prefix.
abbrev pub strip_prefix : Text → Text → Option Text
strip_prefix s [] = some s
strip_prefix [] (_ ∷ _) = none
strip_prefix (a ∷ s) (b ∷ p) = if a == b then strip_prefix s p else none

abbrev pub is_some {ℓ} : {A : Type ℓ} → Option A → Bool
is_some none = false
is_some (some _) = true

abbrev pub has_prefix : Text → Text → Bool
has_prefix s p = is_some (strip_prefix s p)

pub strip_prefix_sound : (s p : Text) {r : Text} → strip_prefix s p ≡ some r → s ≡ p ++ r
strip_prefix_sound s [] h = ground arith
strip_prefix_sound [] (b ∷ p) h = ground arith
strip_prefix_sound (a ∷ s) (b ∷ p) {r} h = ground (arith, strip_prefix_sound s p {r = r})

-- strings.Contains s p.
abbrev pub contains : Text → Text → Bool
contains [] p = has_prefix [] p
contains (a ∷ s) p = has_prefix (a ∷ s) p || contains s p

-- The decimal digits of a number below 10 ^ fuel, before the text `out`.
abbrev pub digits : ℕ → ℕ → Text → Text
digits zero n out = out
digits (suc fuel) n out =
    let rest = digits fuel (n / 10) ((b'0' + n % 10) ∷ out) in
    if ltb n 10 then (b'0' + n) ∷ out else rest

-- strconv.Itoa of a number that is not negative: an int64 has at most nineteen digits.
abbrev pub itoa : ℕ → Text
itoa n = digits 20 n []

strip_nil : (s : Text) → strip_prefix s [] ≡ some s
strip_nil [] = refl
strip_nil (a ∷ s) = refl

pub strip_prefix_complete : (p r : Text) → strip_prefix (p ++ r) p ≡ some r
strip_prefix_complete [] r = strip_nil r
strip_prefix_complete (a ∷ p) r = ground (arith, strip_prefix_complete p r)
