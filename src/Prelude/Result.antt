-- ===== src/Prelude/Result.antt =====
-- A value or an error, with its `do` notation.
use mathlib.Core.Path.{◌≡◌, refl}
use mathlib.Core.Logic.{◌⊎◌, inl, inr}
use mathlib.Core.Bool.{Bool, true, false}
use daegsa.Prelude.Tests.{if◌then◌else◌}

pub data Result {ℓ κ} (E : Type ℓ) (A : Type κ) : Type (ℓ ⊔ κ) where
  ok : A → Result E A
  err : E → Result E A

module _ {ℓ} {E : Type ℓ} where
  infixl 5 ◌>>=◌
  abbrev pub ◌>>=◌ {κ μ} : {A : Type κ} {B : Type μ} → Result E A → (A → Result E B) → Result E B
  ok a >>= f = f a
  err e >>= f = err e

  -- A bind gives a value only by way of the value of its first part.
  pub ok_parts {κ μ} :
      {A : Type κ} {B : Type μ} {g : A → Result E B} {b : B} (r : Result E A)
      → (r >>= g) ≡ ok b
      → (x : A) × (r ≡ ok x) × (g x ≡ ok b)
  ok_parts (err failure) never = cc
  ok_parts (ok x) rest = (x, refl, rest)

pub ok-injective {ℓ κ} :
    {E : Type ℓ} {A : Type κ} {a b : A} → ◌≡◌ {A = Result E A} (ok a) (ok b) → a ≡ b
ok-injective h = cc

-- A test that guards an error was not passed by a result.
pub unless_err {ℓ κ} :
    {E : Type ℓ} {A : Type κ} (b : Bool) (e : E) {r : Result E A} {a : A}
    → (if b then err e else r) ≡ ok a
    → r ≡ ok a
unless_err true e h = cc
unless_err false e h = h

-- A guard that was passed was false, and what stands behind it has the result.
pub guard_parts {ℓ κ} :
    {E : Type ℓ} {A : Type κ} (b : Bool) (e : E) {r : Result E A} {a : A}
    → (if b then err e else r) ≡ ok a
    → (b ≡ false) × (r ≡ ok a)
guard_parts true e h = cc
guard_parts false e h = (refl, h)

pub guard_of {ℓ κ} :
    {E : Type ℓ} {A : Type κ} (b : Bool) (e : E) {r : Result E A} {a : A}
    → b ≡ false
    → r ≡ ok a
    → (if b then err e else r) ≡ ok a
guard_of true e p h = cc
guard_of false e p h = h

-- A test that leads to a value and not to its error held.
pub test_parts {ℓ κ} :
    {E : Type ℓ} {A : Type κ} (b : Bool) (e : E) {r : Result E A} {a : A}
    → (if b then r else err e) ≡ ok a
    → (b ≡ true) × (r ≡ ok a)
test_parts true e h = (refl, h)
test_parts false e h = cc

pub bind_of {ℓ κ μ} :
    {E : Type ℓ} {A : Type κ} {B : Type μ} {r : Result E A} (g : A → Result E B) {b : B} (a : A)
    → r ≡ ok a
    → g a ≡ ok b
    → (r >>= g) ≡ ok b
bind_of g a p q = rw p q

-- A bind fails in its first part, or after it.
pub err_parts {ℓ κ μ} :
    {E : Type ℓ} {A : Type κ} {B : Type μ} {g : A → Result E B} {e : E} (r : Result E A)
    → (r >>= g) ≡ err e
    → (r ≡ err e) ⊎ ((x : A) × (r ≡ ok x) × (g x ≡ err e))
err_parts (err failure) h = inl cc
err_parts (ok x) h = inr (x, refl, h)

pub err-injective {ℓ κ} :
    {E : Type ℓ} {A : Type κ} {a b : E} → ◌≡◌ {A = Result E A} (err a) (err b) → a ≡ b
err-injective h = cc
