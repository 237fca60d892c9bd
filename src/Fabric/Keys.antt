-- ===== src/Fabric/Keys.antt =====
-- The shard key of an envelope: `extract_shard_key` of src/pool.rs, `AnyPayload::field` of
-- src/envelope.rs and `extract_key` of src/kernel.rs. A JSON value is serde's, so what is read of one
-- is the interface `Json`.
pub mod Reads
use trouper.Prelude.{ℕ, String, Option, none, some, List, str_eq, if◌then◌else◌, find}
use trouper.Schema.{SchemaDef, SchemaTable, FieldDef, FieldTy, bool, int, float, by_id}
use trouper.Envelope.{Envelope}
use trouper.Registry.Paths.{is_empty_text}

-- What serde answers of a value: a field of an object, a string, and the text of a number or of a
-- Boolean, where `as_i64` and `as_f64` come before the text.
pub record Json : Type 1 where
  pub Value : Type 0
  pub get : Value → String → Option Value
  pub as_str : Value → Option String
  pub i64_text : Value → Option String
  pub f64_text : Value → Option String
  pub bool_text : Value → Option String
  pub number_text : Value → Option String
  pub bytes_value : List ℕ → Option Value
  pub default_value : Value

abbrev pub nonempty : Option String → Option String
nonempty none = none
nonempty (some s) = if is_empty_text s then none else some s

abbrev pub first_of {ℓ} : {A : Type ℓ} → Option A → Option A → Option A
first_of none b = b
first_of (some a) b = some a

module _ (j : Json) where
  open j use {Value, get, as_str, i64_text, f64_text, bool_text, number_text, bytes_value}

  abbrev pub rendered : Option FieldTy → Value → Option String
  rendered (some int) v = i64_text v
  rendered (some float) v = f64_text v
  rendered (some bool) v = bool_text v
  rendered _ v = as_str v

  abbrev pub type_of : Option FieldDef → Option FieldTy
  type_of none = none
  type_of (some f) = some f.ty

  unfoldable pub extract_shard_key : SchemaDef → String → Value → Option String
  extract_shard_key def key_field payload = elim (get payload key_field) [
    | none ↦ none
    | some v ↦
        nonempty
          (rendered (type_of (find (λ (f : FieldDef). str_eq f.name key_field) def.fields)) v)
  ]

  pub data AnyPayload : Type 0 where
    -- a live value: the read that the derive generates, and its JSON view
    value : (String → Option String) → Value → AnyPayload
    bytes : List ℕ → AnyPayload
    json : Value → AnyPayload

  abbrev pub json_string_of : Value → Option String
  json_string_of v = first_of (as_str v) (first_of (number_text v) (bool_text v))

  abbrev pub string_in : String → Option Value → Option String
  string_in name none = none
  string_in name (some view) = elim (get view name) [ none ↦ none | some v ↦ json_string_of v ]

  unfoldable pub field : AnyPayload → String → Option String
  field (value read view) name = read name
  field (bytes b) name = string_in name (bytes_value b)
  field (json view) name = string_in name (some view)

  abbrev pub value_or_default : Option Value → Value
  value_or_default none = j.default_value
  value_or_default (some v) = v

  abbrev pub payload_json : AnyPayload → Value
  payload_json (value read view) = view
  payload_json (bytes b) = value_or_default (bytes_value b)
  payload_json (json view) = view

  -- The reading by the descriptor, or without one.
  unfoldable pub described_key : Option SchemaDef → String → Value → Option String
  unfolding extract_shard_key
  described_key none key_field payload = elim (get payload key_field) [
    | none ↦ none
    | some v ↦ as_str v
  ]
  described_key (some def) key_field payload = extract_shard_key def key_field payload

  unfoldable pub extract_key : SchemaTable → Envelope AnyPayload → String → Option String
  unfolding by_id field described_key
  extract_key table e key_field =
      first_of (nonempty (field e.payload key_field))
        (described_key (by_id e.schema_id table) key_field (payload_json e.payload))
