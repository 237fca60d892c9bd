-- ===== src/Registry/Sets.antt =====
-- The partition sets and projector sets of src/registry.rs, with their specs of src/pool.rs. A hash map
-- by public path is a list without two of one path, in the order of iteration. A spec's factory, genesis
-- arguments and spawn options stand with the routing.
pub mod Owned
use trouper.Prelude.{
  String, Bool, true, false, not, ◌&&◌, Option, none, some, List, [], ◌∷◌, ◌++◌, str_eq,
  if◌then◌else◌, retain, any, find, contains,
}
use trouper.Journal.{ActorPath, SchemaId}
use trouper.Schema.{SchemaDef, SchemaTable, by_id, declares_key, is_command}
use trouper.Registry.Paths.{owns}
use trouper.Registry.Slots.{Answer, done, failed, invalid_spec}

pub record PartitionSpec : Type 0 where
  pub public : ActorPath
  pub key_field : String

pub record ProjectorSetSpec : Type 0 where
  pub public : ActorPath
  pub key_field : String
  pub consumed : List SchemaId

unfoldable pub install_partition_set :
    PartitionSpec → SchemaTable → List PartitionSpec → Answer (List PartitionSpec)
unfolding declares_key
install_partition_set spec table sets =
    if any (λ (d : SchemaDef). is_command d.kind && declares_key spec.key_field d) table
    then done (retain (λ (s : PartitionSpec). not (str_eq s.public spec.public)) sets ++ spec ∷ [])
    else failed invalid_spec

abbrev pub is_event_in : Option SchemaDef → Bool
is_event_in none = false
is_event_in (some def) = not (is_command def.kind)

abbrev pub declares_key_in : String → Option SchemaDef → Bool
declares_key_in key_field none = false
declares_key_in key_field (some def) = declares_key key_field def

-- The loop over the consumed schemas, which returns at the first that is no registered event.
unfoldable pub all_events : SchemaTable → List SchemaId → Bool
unfolding by_id
all_events table [] = true
all_events table (schema ∷ schemas) = is_event_in (by_id schema table) && all_events table schemas

unfoldable pub install_projector_set :
    ProjectorSetSpec → SchemaTable → List ProjectorSetSpec → Answer (List ProjectorSetSpec)
unfolding all_events declares_key by_id
install_projector_set spec table sets =
    if all_events table spec.consumed
    then if any (λ schema. declares_key_in spec.key_field (by_id schema table)) spec.consumed
      then done
          (retain (λ (s : ProjectorSetSpec). not (str_eq s.public spec.public)) sets ++ spec ∷ [])
      else failed invalid_spec
    else failed invalid_spec

unfoldable pub projector_sets_consuming : SchemaId → List ProjectorSetSpec → List ProjectorSetSpec
projector_sets_consuming schema sets =
    retain (λ (s : ProjectorSetSpec). contains s.consumed schema) sets

unfoldable pub projector_set_owning : ActorPath → List ProjectorSetSpec → Option ProjectorSetSpec
unfolding owns
projector_set_owning p sets = find (λ (s : ProjectorSetSpec). owns s.public p) sets

abbrev pub is_some {ℓ} : {A : Type ℓ} → Option A → Bool
is_some none = false
is_some (some a) = true

-- `projector_set_owning(path).is_some()`
unfoldable pub is_member : List ProjectorSetSpec → ActorPath → Bool
unfolding projector_set_owning
is_member sets p = is_some (projector_set_owning p sets)
