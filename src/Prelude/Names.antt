-- ===== src/Prelude/Names.antt =====
-- Lists of names without doubles.
use mathlib.Core.Logic.{inl, inr}
use mathlib.Core.Path.{◌≡◌, refl}
use mathlib.Core.Bool.{Bool, true, false, ◌&&◌, ◌||◌}
use mathlib.Core.List.{List, [], ◌∷◌, ◌++◌}
use native.Mathlib.Omega.{arith}
use Prim.Native.String.{String}
use text.Mathlib.TextEquality.{eq_iff}
use trouper.Prelude.Tests.{Bool-cases}
use trouper.Prelude.Lists.{retain, contains}

abbrev pub NoDup : List String → Type 0
NoDup [] = Unit
NoDup (x ∷ xs) = (contains xs x ≡ false) × NoDup xs

pub contains-retain :
    (p : String → Bool) (xs : List String) (a : String)
    → contains (retain p xs) a ≡ (contains xs a && p a)
contains-retain p [] a = refl
contains-retain p (x ∷ xs) a = ground (arith, contains-retain p xs a, eq_iff x a)

pub NoDup-retain : (p : String → Bool) (xs : List String) → NoDup xs → NoDup (retain p xs)
NoDup-retain p [] h = tt
NoDup-retain p (x ∷ xs) h = elim (Bool-cases (p x)) [
  | inl e ↦ rw (e) (ground (arith, contains-retain p xs x, h.0), NoDup-retain p xs h.1)
  | inr e ↦ rw (e) (NoDup-retain p xs h.1)
]

pub contains-append :
    (xs ys : List String) (a : String) → contains (xs ++ ys) a ≡ (contains xs a || contains ys a)
contains-append [] ys a = refl
contains-append (x ∷ xs) ys a = ground (arith, contains-append xs ys a)

-- Two lists without doubles that share nothing, one behind the other.
pub NoDup-append :
    (xs ys : List String)
    → NoDup xs
    → NoDup ys
    → ((a : String) → contains ys a ≡ true → contains xs a ≡ false)
    → NoDup (xs ++ ys)
NoDup-append [] ys hx hy d = hy
NoDup-append (x ∷ xs) ys hx hy d = (
  ground (arith, contains-append xs ys x, hx.0, Bool-cases (contains ys x), d x, eq_iff x x),
  NoDup-append xs ys hx.1 hy (λ a h. ground (arith, d a h)),
)
