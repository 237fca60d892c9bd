-- ===== src/Schema.antt =====
-- src/schema.rs as data: descriptors, manifests and schema ids, and the schema table of src/registry.rs
-- with the claim of a schema name by a Rust type. A schema id is its name. Ranges and derive support
-- are left out. The hash map of descriptors is a list without two of one name, the static map of
-- owners a function.
pub mod Ids
pub mod Table
mod Tests
use Prim.Native.Char.{code}
use trouper.Prelude.{
  ℕ, String, Bool, true, false, ◌&&◌, Option, none, some, List, [], ◌∷◌, ◌++◌, str_eq, ◌==◌,
  if◌then◌else◌, any, find, contains,
}
use trouper.Journal.{SchemaId}

pub data SchemaKind : Type 0 where
  command event : SchemaKind

pub data FieldTy : Type 0 where
  bool int float str uuid json : FieldTy
  list : FieldTy → FieldTy

pub data FieldRole : Type 0 where
  shard_key : FieldRole

pub record FieldDef : Type 0 where
  pub name : String
  pub ty : FieldTy
  pub unit : Option String
  pub role : Option FieldRole
  pub description : Option String

unfoldable pub required : String → FieldTy → FieldDef
required name ty = record { name = name; ty = ty; unit = none; role = none; description = none }

unfoldable pub as_shard_key : FieldDef → FieldDef
as_shard_key f = record f { role = some shard_key }

pub record SchemaDef : Type 0 where
  pub name : String
  pub kind : SchemaKind
  pub fields : List FieldDef
  pub description : Option String

abbrev pub is_shard_key : Option FieldRole → Bool
is_shard_key none = false
is_shard_key (some shard_key) = true

abbrev pub is_command : SchemaKind → Bool
is_command command = true
is_command event = false

-- Whether a field of this name carries the shard key.
unfoldable pub declares_key : String → SchemaDef → Bool
declares_key key_field def = any (λ f. str_eq f.name key_field && is_shard_key f.role) def.fields

-- The name in front of the first '@', or all of it.
abbrev pub before_at : String → String
before_at String.[] = String.[]
before_at (String.◌∷◌ c s) =
    let rest = before_at s in if code c == 64 then String.[] else String.◌∷◌ c rest

-- `SchemaId::parse`
unfoldable pub parse : String → Option SchemaId
parse s = some (before_at s)

pub data ActorKind : Type 0 where
  event_sourced service : ActorKind

pub record ActorManifest : Type 0 where
  pub handles : List SchemaId
  pub emits : List SchemaId
  pub kind : Option ActorKind

abbrev pub new_manifest : ActorManifest
new_manifest = record { handles = []; emits = []; kind = none }

-- `push` unless `contains`
unfoldable pub declared_once : SchemaId → List SchemaId → List SchemaId
declared_once id ids = if contains ids id then ids else ids ++ id ∷ []

unfoldable pub handles_id : SchemaId → ActorManifest → ActorManifest
unfolding declared_once
handles_id id m = record m { handles = declared_once id m.handles }

unfoldable pub emits_id : SchemaId → ActorManifest → ActorManifest
unfolding declared_once
emits_id id m = record m { emits = declared_once id m.emits }

-- The table of descriptors.
abbrev pub SchemaTable : Type 0
SchemaTable = List SchemaDef

unfoldable pub by_id : SchemaId → SchemaTable → Option SchemaDef
by_id id t = find (λ (d : SchemaDef). str_eq d.name id) t

abbrev pub or_insert : Option SchemaDef → SchemaDef → SchemaTable → SchemaTable
or_insert none def t = t ++ def ∷ []
or_insert (some first) def t = t

unfoldable pub register : SchemaDef → SchemaTable → SchemaTable × SchemaId
unfolding by_id
register def t = (or_insert (by_id def.name t) def t, def.name)

-- Which Rust type owns a schema name; a `TypeId` is a number.
abbrev pub Owners : Type 0
Owners = String → Option ℕ

-- The claim and whether it succeeds.
unfoldable pub claim_schema_type : String → ℕ → Owners → Owners × Bool
claim_schema_type name type_id owners = elim (owners name) [
  | none ↦ (λ s. if str_eq s name then some type_id else owners s, true)
  | some owner ↦ (owners, owner == type_id)
]

pub record TypedTable : Type 0 where
  pub table : SchemaTable
  pub owners : Owners

-- `none` is the error `DuplicateType`.
unfoldable pub register_typed : SchemaDef → ℕ → TypedTable → TypedTable × Option SchemaId
unfolding claim_schema_type register
register_typed def type_id t =
    let (owners, claimed) = claim_schema_type def.name type_id t.owners in
    if claimed
    then (record { table = (register def t.table).0; owners = owners }, some def.name)
    else (record { table = t.table; owners = owners }, none)
