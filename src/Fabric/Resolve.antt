-- ===== src/Fabric/Resolve.antt =====
-- `resolve_partition` and `resolve_projector_set` of src/kernel.rs. The passivation and the snapshot cadence that a set hands its members are left out.
use trouper.Prelude.{Option, none, some, if◌then◌else◌}
use trouper.Journal.{ActorPath}
use trouper.Envelope.{Envelope}
use trouper.Registry.Paths.{member_path}
use trouper.Registry.Slots.{is_registered}
use trouper.Registry.Sets.{PartitionSpec, ProjectorSetSpec}
use trouper.Fabric.{Application, Fabric}

-- `Result<Option<ActorPath>, Envelope>`: no set, the member, or the envelope back.
pub data Resolved : Type 0 where
  fell_through missing : Resolved
  entity : ActorPath → Resolved

module _ {P : Type 0} (app : Application P) where
  open app use {extract, spawn_entity, spawn_projector}

  -- A live member, or one that the factory starts, unless the sweep is on.
  abbrev pub activate : ActorPath → (Fabric P → Fabric P) → Fabric P → Fabric P × Resolved
  activate p spawn f =
      if is_registered p f.slots
      then (f, entity p)
      else if f.is_shutting_down
      then (f, missing)
      else (spawn f, entity p)

  unfoldable pub resolve_projector_set :
      Envelope P → Option ProjectorSetSpec → Fabric P → Fabric P × Resolved
  unfolding is_registered member_path
  resolve_projector_set e none f = (f, fell_through)
  resolve_projector_set e (some spec) f = elim (extract f.table e spec.key_field) [
    | none ↦ (f, missing)
    | some key ↦
        activate (member_path spec.public key)
          (spawn_projector spec (member_path spec.public key) key) f
  ]

  unfoldable pub resolve_partition :
      Envelope P
      → ActorPath
      → Option PartitionSpec
      → Option ProjectorSetSpec
      → Fabric P
      → Fabric P × Resolved
  unfolding resolve_projector_set is_registered member_path
  resolve_partition e dest none projector_spec f = resolve_projector_set e projector_spec f
  resolve_partition e dest (some spec) projector_spec f = elim (extract f.table e spec.key_field) [
    | none ↦ (f, missing)
    | some key ↦ activate (member_path dest key) (spawn_entity spec (member_path dest key) key) f
  ]
