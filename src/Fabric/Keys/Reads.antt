-- ===== src/Fabric/Keys/Reads.antt =====
-- What a shard key can be: `extract_key` of src/kernel.rs.
use trouper.Prelude.{
  String, ◌≡◌, refl, sym, subst, ◌∙◌, ◌⊎◌, inl, inr, false, Option, none, some, str_eq, Bool-cases,
  Option-cases, find, some-inj, some≢none,
}
use trouper.Envelope.{Envelope}
use trouper.Registry.Paths.{is_empty_text}
use trouper.Schema.{SchemaDef, SchemaTable, FieldDef, by_id}
use trouper.Fabric.Keys.{
  Json, AnyPayload, field, extract_shard_key, extract_key, described_key, payload_json, nonempty,
  first_of, rendered, type_of, json, string_in,
}

nonempty-some : (o : Option String) (k : String) → nonempty o ≡ some k → is_empty_text k ≡ false
nonempty-some none k h = absurd (some≢none (sym h))
nonempty-some (some s) k h = elim (Bool-cases (is_empty_text s)) [
  | inl e ↦ absurd (some≢none (sym h ∙ rw (e) refl))
  | inr e ↦ subst (λ t. is_empty_text t ≡ false) (some-inj (sym (rw (e) refl) ∙ h)) e
]

-- Of two readings, one gave the key.
first_of-some :
    (o p : Option String) (k : String) → first_of o p ≡ some k → (o ≡ some k) ⊎ (p ≡ some k)
first_of-some none p k h = inr h
first_of-some (some s) p k h = inl h

module _ (j : Json) where
  open j use {Value, get}

  extract_shard_key-nonempty :
      (def : SchemaDef) (name : String) (v : Value) (k : String)
      → extract_shard_key j def name v ≡ some k
      → is_empty_text k ≡ false
  unfolding extract_shard_key
  extract_shard_key-nonempty def name v k h = elim (Option-cases (get v name)) [
    | inl g ↦ absurd (some≢none (sym h ∙ rw (extract_shard_key, g) refl))
    | inr (x, g) ↦
        nonempty-some
          (rendered j (type_of j (find (λ (f : FieldDef). str_eq f.name name) def.fields)) x) k
          (sym (rw (extract_shard_key, g) refl) ∙ h)
  ]

  -- The shard key of an envelope under a registered schema is never empty, however its payload is
  -- represented.
  pub extract_key-nonempty :
      (table : SchemaTable) (e : Envelope (AnyPayload j)) (name : String) (def : SchemaDef)
      (k : String)
      → by_id e.schema_id table ≡ some def
      → extract_key j table e name ≡ some k
      → is_empty_text k ≡ false
  unfolding extract_key described_key
  extract_key-nonempty table e name def k d h =
      elim (first_of-some (nonempty (field j e.payload name))
        (described_key j (by_id e.schema_id table) name (payload_json j e.payload)) k h) [
          | inl g ↦ nonempty-some (field j e.payload name) k g
          | inr g ↦
              extract_shard_key-nonempty def name (payload_json j e.payload) k
                (sym (rw (d) refl) ∙ g)
        ]

  -- Without a registered schema a string field that is empty is taken for the key.
  pub extract_key-empty :
      (table : SchemaTable) (e : Envelope (AnyPayload j)) (name : String) (v x : Value)
      → by_id e.schema_id table ≡ none
      → e.payload ≡ json v
      → get v name ≡ some x
      → j.as_str x ≡ some ""
      → extract_key j table e name ≡ some ""
  unfolding extract_key described_key field
  extract_key-empty table e name v x d p g a =
      rw (extract_key, d, p, field, described_key, string_in, g, a) refl
