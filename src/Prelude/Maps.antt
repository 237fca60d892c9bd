-- ===== src/Prelude/Maps.antt =====
-- Tables as functions from names.
use mathlib.Core.Path.{◌≡◌, refl, sym, ap}
use mathlib.Core.Logic.{◌≢◌, inl, inr}
use mathlib.Core.Bool.{false}
use Prim.Native.String.{String}
use text.Mathlib.Text.{◌==◌ as str_eq}
use text.Mathlib.TextEquality.{eq_iff}
use text.Mathlib.TextPositions.{eq_refl}
use trouper.Prelude.Tests.{Bool-cases, if◌then◌else◌}

-- `insert`, or `remove` where the values are options.
abbrev pub update {ℓ} : {A : Type ℓ} → String → A → (String → A) → String → A
update key value table k = if str_eq k key then value else table k

pub update_self {ℓ} :
    {A : Type ℓ} (key : String) (value : A) (table : String → A)
    → update key value table key ≡ value
update_self key value table = rw (eq_refl key) refl

pub differs : (k key : String) → k ≢ key → str_eq k key ≡ false
differs k key n = elim (Bool-cases (str_eq k key)) [
  | inl e ↦ absurd (n ((eq_iff k key).0 e))
  | inr e ↦ e
]

pub update_other {ℓ} :
    {A : Type ℓ} (key k : String) (value : A) (table : String → A)
    → k ≢ key
    → update key value table k ≡ table k
update_other key k value table n = rw (differs k key n) refl

pub update_same {ℓ} :
    {A : Type ℓ} (key : String) (table : String → A) (k : String)
    → update key (table key) table k ≡ table k
update_same key table k = elim (Bool-cases (str_eq k key)) [
  | inl e ↦ rw e (ap table (sym ((eq_iff k key).0 e)))
  | inr e ↦ rw e refl
]
