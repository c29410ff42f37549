-- ===== src/Base/Options.antt =====
-- `do` blocks of `Option`: `none` is an exception, or a function that gives nothing.
use mathlib.Core.Path.{◌≡◌, refl}
use mathlib.Core.Bool.{Bool, true, false}
use speedex_parallelize.Base.Tests.{if◌then◌else◌}
use mathlib.Core.Option.{Option, none, some, some-injective}
use mathlib.Core.Logic.{◌⊎◌, inl, inr}

infixl 5 ◌>>=◌
abbrev pub ◌>>=◌ {ℓ κ} : {A : Type ℓ} {B : Type κ} → Option A → (A → Option B) → Option B
none >>= f = none
some a >>= f = f a

-- The parts of a call that gives a result.
pub >>=-eq-some {ℓ κ} :
    {A : Type ℓ} {B : Type κ} (m : Option A) (f : A → Option B) {b : B}
    → (m >>= f) ≡ some b
    → (a : A) × (m ≡ some a) × (f a ≡ some b)
>>=-eq-some none f h = cc
>>=-eq-some (some a) f h = (a, refl, h)

-- `if (test) throw`.
pub guarded {ℓ} :
    {A : Type ℓ} (test : Bool) (m : Option A) {b : A}
    → (if test then none else m) ≡ some b
    → (test ≡ false) × (m ≡ some b)
guarded true m h = cc
guarded false m h = (refl, h)

pub either {ℓ} :
    {A : Type ℓ} (test : Bool) (a : A) (m : Option A) {b : A}
    → (if test then some a else m) ≡ some b
    → (a ≡ b) ⊎ (m ≡ some b)
either true a m {b} h = inl (some-injective a b h)
either false a m h = inr h
