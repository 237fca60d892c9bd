-- ===== src/Prelude/Panic.antt =====
-- Code that may panic: a result, or the panic itself.
use mathlib.Core.Path.{◌≡◌, refl}
use mathlib.Core.Logic.{◌≢◌, ◌⊎◌, inl, inr}
use mathlib.Core.Bool.{Bool, true, false}
use trouper.Prelude.Tests.{if◌then◌else◌}

pub data Run {ℓ} (A : Type ℓ) : Type ℓ where
  returns : A → Run A
  panics : Run A

infixl 5 ◌>>=◌
abbrev pub ◌>>=◌ {ℓ κ} : {A : Type ℓ} {B : Type κ} → Run A → (A → Run B) → Run B
returns a >>= f = f a
panics >>= f = panics

-- A run that returned, bound to a continuation, returned at both places.
pub >>=-eq-returns {ℓ κ} :
    {A : Type ℓ} {B : Type κ} (m : Run A) (f : A → Run B) {b : B}
    → (m >>= f) ≡ returns b
    → (a : A) × (m ≡ returns a) × (f a ≡ returns b)
>>=-eq-returns (returns a) f h = (a, refl, h)
>>=-eq-returns panics f h = cc

-- What holds of the result, if there is one.
abbrev pub IfReturns {ℓ κ} : {A : Type ℓ} → (A → Type κ) → Run A → Type κ
IfReturns P (returns a) = P a
IfReturns P panics = Unit

pub IfReturns-bind {ℓ κ μ ν} :
    {A : Type ℓ} {B : Type κ} (P : A → Type μ) (Q : B → Type ν) (m : Run A) (f : A → Run B)
    → IfReturns P m
    → ((a : A) → P a → IfReturns Q (f a))
    → IfReturns Q (m >>= f)
IfReturns-bind P Q (returns a) f h k = k a h
IfReturns-bind P Q panics f h k = tt

pub IfReturns-mono {ℓ μ ν} :
    {A : Type ℓ} {P : A → Type μ} (Q : A → Type ν) (m : Run A)
    → IfReturns P m
    → ((a : A) → P a → Q a)
    → IfReturns Q m
IfReturns-mono Q (returns a) h k = k a h
IfReturns-mono Q panics h k = tt

pub IfReturns-if {ℓ κ} :
    {A : Type ℓ} (P : A → Type κ) (b : Bool) (m n : Run A)
    → (b ≡ true → IfReturns P m)
    → (b ≡ false → IfReturns P n)
    → IfReturns P (if b then m else n)
IfReturns-if P true m n f g = f refl
IfReturns-if P false m n f g = g refl

pub IfReturns-any {ℓ} : {A : Type ℓ} (m : Run A) → IfReturns (λ _. Unit {0}) m
IfReturns-any (returns a) = tt
IfReturns-any panics = tt

-- A run that does not panic returned.
pub returned {ℓ κ} :
    {A : Type ℓ} (P : A → Type κ) (m : Run A)
    → m ≢ panics
    → IfReturns P m
    → (a : A) × (m ≡ returns a) × P a
returned P (returns a) n h = (a, refl, h)
returned P panics n h = absurd (n refl)

pub Run-cases {ℓ} : {A : Type ℓ} (m : Run A) → (m ≡ panics) ⊎ ((a : A) × (m ≡ returns a))
Run-cases panics = inl refl
Run-cases (returns a) = inr (a, refl)
