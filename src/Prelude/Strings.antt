-- ===== src/Prelude/Strings.antt =====
-- More of Go's package strings: trimming, cases, suffixes and splitting. What Go's Unicode tables
-- say of a code point from 128 on is the parameter `Unicode`, about which nothing is assumed.
pub mod Trim
use Prim.Native.Nat.{ℕ, ◌+◌, ◌-◌}
use mathlib.Core.Path.{◌≡◌, refl, ap}
use mathlib.Core.Bool.{Bool, true, ◌&&◌, ◌||◌}
use mathlib.Core.List.{List, [], ◌∷◌, ◌++◌, reverse, map}
use native.Mathlib.Omega.{arith}
use daegsa.Prelude.Tests.{ltb, leb, ◌==◌, if◌then◌else◌, Bool-cases}
use mathlib.Core.Logic.{inl, inr}
use daegsa.Prelude.Lists.{any}
use daegsa.Prelude.Text.{Text, text_eq, text_eq_sound, text_eq_refl}

pub record Unicode : Type 0 where
  pub lower_rune : ℕ → ℕ
  pub upper_rune : ℕ → ℕ
  pub is_space_rune : ℕ → Bool

module _ (unicode : Unicode) where
  unfoldable pub lower : ℕ → ℕ
  lower c =
      if ltb c 128 then (if leb b'A' c && leb c b'Z' then c + 32 else c) else unicode.lower_rune c

  unfoldable pub is_space : ℕ → Bool
  is_space c = if ltb c 128 then (leb 9 c && leb c 13) || c == 32 else unicode.is_space_rune c

  unfoldable pub upper : ℕ → ℕ
  upper c =
      if ltb c 128 then (if leb b'a' c && leb c b'z' then c - 32 else c) else unicode.upper_rune c

  -- strings.ToUpper
  abbrev pub to_upper : Text → Text
  to_upper = map upper

  -- strings.ToLower
  abbrev pub to_lower : Text → Text
  to_lower = map lower

  abbrev pub trim_left : Text → Text
  trim_left [] = []
  trim_left (c ∷ s) = if is_space c then trim_left s else c ∷ s

  -- strings.TrimSpace
  abbrev pub trim_space : Text → Text
  trim_space s = reverse (trim_left (reverse (trim_left s)))

-- strings.HasSuffix s p
abbrev pub has_suffix : Text → Text → Bool
has_suffix [] p = text_eq [] p
has_suffix (c ∷ s) p = text_eq (c ∷ s) p || has_suffix s p

-- A suffix is what follows some text.
pub has_suffix_sound : (s p : Text) → has_suffix s p ≡ true → (front : Text) × (s ≡ front ++ p)
has_suffix_sound [] p h = ([], text_eq_sound [] p h)
has_suffix_sound (c ∷ s) p h = elim (Bool-cases (text_eq (c ∷ s) p)) [
  | inl e ↦ ([], text_eq_sound (c ∷ s) p e)
  | inr e ↦ let (front, q) = has_suffix_sound s p (rw e at h) in (c ∷ front, ap (λ t. c ∷ t) q)
]

pub has_suffix_complete : (front p : Text) → has_suffix (front ++ p) p ≡ true
has_suffix_complete [] [] = refl
has_suffix_complete [] (c ∷ p) = ground (arith, text_eq_refl (c ∷ p))
has_suffix_complete (c ∷ front) p = ground (arith, has_suffix_complete front p)

-- strings.ContainsAny s set
abbrev pub contains_any : Text → Text → Bool
contains_any s set = any (λ c. any (λ d. c == d) set) s

-- strings.TrimSuffix s of the text of one code point.
abbrev pub trim_last : ℕ → Text → Text
trim_last d [] = []
trim_last d (c ∷ []) = if c == d then [] else c ∷ []
trim_last d (c ∷ e ∷ s) = c ∷ trim_last d (e ∷ s)

abbrev pub push_front : ℕ → List Text → List Text
push_front c [] = (c ∷ []) ∷ []
push_front c (part ∷ parts) = (c ∷ part) ∷ parts

-- strings.Split s of the text of one code point: there is always a part.
abbrev pub split_on : ℕ → Text → List Text
split_on d [] = [] ∷ []
split_on d (c ∷ s) = let rest = split_on d s in if c == d then [] ∷ rest else push_front c rest

-- How many bytes a code point takes in UTF-8, and a text: `len` of a Go string.
abbrev pub rune_len : ℕ → ℕ
rune_len c = if ltb c 128 then 1 else if ltb c 2048 then 2 else if ltb c 65536 then 3 else 4

abbrev pub byte_len : Text → ℕ
byte_len [] = 0
byte_len (c ∷ s) = rune_len c + byte_len s
