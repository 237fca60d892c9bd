-- ===== src/Schema/Ids.antt =====
-- `SchemaId::parse` of src/schema.rs against `as_str`, which is the id itself in this model.
use Prim.Native.Char.{code}
use trouper.Prelude.{
  String, ◌≡◌, refl, ap, ◌↔◌, inl, inr, Bool, false, ◌||◌, some, arith, ◌==◌, Bool-cases,
}
use trouper.Schema.{before_at, parse}

abbrev pub has_at : String → Bool
has_at String.[] = false
has_at (String.◌∷◌ c s) = code c == 64 || has_at s

has_at-before_at : (s : String) → has_at (before_at s) ≡ false
has_at-before_at String.[] = refl
has_at-before_at (String.◌∷◌ c s) = elim (Bool-cases (code c == 64)) [
  | inl h ↦ rw (h) refl
  | inr h ↦ rw (h, h) (has_at-before_at s)
]

before_at_self : (s : String) → has_at s ≡ false → before_at s ≡ s
before_at_self String.[] h = refl
before_at_self (String.◌∷◌ c s) h = elim (Bool-cases (code c == 64)) [
  | inl g ↦ ground (arith, g, h)
  | inr g ↦ rw (g) (ap (λ t. String.◌∷◌ c t) (before_at_self s (ground (arith, g, h))))
]

-- An id that is printed and parsed is itself exactly when its name has no '@'; and a text that was
-- parsed once is printed and parsed without a change.
pub parse-as_str :
    (s : String) → ((parse s ≡ some s) ↔ (has_at s ≡ false)) × (parse (before_at s) ≡ parse s)
unfolding parse
parse-as_str s = (
  (λ e. cc (has_at-before_at s), λ h. ap some (before_at_self s h)),
  ap some (before_at_self (before_at s) (has_at-before_at s)),
)
