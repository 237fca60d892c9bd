-- ===== src/Schema/Table.antt =====
-- The schema table of src/registry.rs: the first registration of a name is kept, and a name has one
-- Rust type for good.
use trouper.Prelude.{
  ℕ, String, ◌≡◌, refl, ap, ◌∙◌, ◌≢◌, inl, inr, Bool, Option, none, some, List, [], ◌∷◌, ◌++◌,
  arith, str_eq, eq_iff, ◌==◌, if◌then◌else◌, ==_iff, Bool-cases, Option-cases, find,
}
use trouper.Journal.{SchemaId}
use trouper.Schema.{
  SchemaDef, SchemaTable, by_id, register, Owners, claim_schema_type, TypedTable, register_typed,
}

-- What stands first, or else the second.
abbrev pub or_else {ℓ} : {A : Type ℓ} → Option A → Option A → Option A
or_else none b = b
or_else (some a) b = some a

find-append {ℓ} :
    {A : Type ℓ} (p : A → Bool) (xs ys : List A)
    → find p (xs ++ ys) ≡ or_else (find p xs) (find p ys)
find-append p [] ys = refl
find-append p (x ∷ xs) ys = ground (arith, find-append p xs ys)

or_else_same {ℓ} : {A : Type ℓ} (o : Option A) → or_else o none ≡ o
or_else_same none = refl
or_else_same (some a) = refl

-- A registration answers a name that has a descriptor already with that one, and the registered
-- name, if it had none, with the new one. No other name's answer changes.
pub by_id-register :
    (def : SchemaDef) (id : SchemaId) (t : SchemaTable)
    → by_id id (register def t).0
      ≡ or_else (by_id id t) (if str_eq def.name id then some def else none)
unfolding by_id register
by_id-register def id t = elim (Option-cases (by_id def.name t)) [
  | inl h ↦ rw (h) (find-append (λ (d : SchemaDef). str_eq d.name id) t (def ∷ []))
  | inr (first, h) ↦ rw (h) (ground (arith, eq_iff def.name id, h, or_else_same (by_id id t)))
]

unfoldable pub register_all : List (SchemaDef × ℕ) → TypedTable → TypedTable
register_all [] t = t
register_all ((def, type_id) ∷ defs) t = register_all defs (register_typed def type_id t).0

-- A claim never takes a name from its owner.
claim-keeps :
    (name : String) (type_id : ℕ) (owners : Owners) (n : String) (owner : ℕ)
    → owners n ≡ some owner
    → (claim_schema_type name type_id owners).0 n ≡ some owner
unfolding claim_schema_type
claim-keeps name type_id owners n owner h = elim (Option-cases (owners name)) [
  | inl g ↦ rw (claim_schema_type, g) (ground (arith, eq_iff n name, g, h))
  | inr (o, g) ↦ rw (claim_schema_type, g) h
]

register_typed-keeps :
    (def : SchemaDef) (type_id : ℕ) (t : TypedTable) (n : String) (owner : ℕ)
    → t.owners n ≡ some owner
    → (register_typed def type_id t).0.owners n ≡ some owner
unfolding register_typed
register_typed-keeps def type_id t n owner h =
    ground (arith, claim-keeps def.name type_id t.owners n owner h)

register_all-keeps :
    (defs : List (SchemaDef × ℕ)) (t : TypedTable) (n : String) (owner : ℕ)
    → t.owners n ≡ some owner
    → (register_all defs t).owners n ≡ some owner
unfolding register_all
register_all-keeps [] t n owner h = h
register_all-keeps ((def, type_id) ∷ defs) t n owner h =
    register_all-keeps defs (register_typed def type_id t).0 n owner
      (register_typed-keeps def type_id t n owner h)

register_typed-at :
    (def : SchemaDef) (type_id owner : ℕ) (t : TypedTable)
    → t.owners def.name ≡ some owner
    → (register_typed def type_id t).1 ≡ (if owner == type_id then some def.name else none)
unfolding register_typed claim_schema_type
register_typed-at def type_id owner t h = rw (register_typed, claim_schema_type, h) (ground arith)

-- A registration that succeeds makes its type the owner of the name.
register_typed-owner :
    (def : SchemaDef) (type_id : ℕ) (t : TypedTable)
    → (register_typed def type_id t).1 ≢ none
    → (register_typed def type_id t).0.owners def.name ≡ some type_id
unfolding register_typed claim_schema_type
register_typed-owner def type_id t h = elim (Option-cases (t.owners def.name)) [
  | inl g ↦ rw (register_typed, claim_schema_type, g) (ground (arith, eq_iff def.name def.name))
  | inr (o, g) ↦ elim (Bool-cases (o == type_id)) [
    | inl e ↦ rw (register_typed, claim_schema_type, g, e) (g ∙ ap some ((==_iff o type_id).0 e))
    | inr e ↦ absurd (h (register_typed-at def type_id o t g ∙ rw (e) refl))
  ]
]

-- Once a Rust type has registered a schema name, and whatever is registered after it, a registration
-- under that name succeeds exactly for that type.
pub register_typed-one_type :
    (def : SchemaDef) (type_id : ℕ) (t : TypedTable) (defs : List (SchemaDef × ℕ))
    (later : SchemaDef) (other : ℕ)
    → (register_typed def type_id t).1 ≢ none
    → later.name ≡ def.name
    → (register_typed later other (register_all defs (register_typed def type_id t).0)).1
      ≡ (if type_id == other then some later.name else none)
register_typed-one_type def type_id t defs later other h e =
    register_typed-at later other type_id (register_all defs (register_typed def type_id t).0) (
      rw (e) (
        register_all-keeps defs (register_typed def type_id t).0 def.name type_id
          (register_typed-owner def type_id t h)))
