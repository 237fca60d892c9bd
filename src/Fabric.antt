-- ===== src/Fabric.antt =====
-- What `route` and `broadcast` of src/kernel.rs work on: the registry's tables, the endpoints with
-- their doors, and the kernel's dead letters; and the two ways into an endpoint. The channel in front of
-- a door is a first-in-first-out queue of kanal's: a send to a full one waits, so that it comes to a send
-- with room, and a closed one refuses. The payload is `P`.
pub mod Rules
pub mod Keys
pub mod Resolve
pub mod Route
pub mod Broadcast
mod Tests
use trouper.Prelude.{
  String, Bool, Option, none, some, List, [], ◌∷◌, ◌++◌, if◌then◌else◌, Run, returns, ◌>>=◌,
}
use trouper.Journal.{ActorPath}
use trouper.Envelope.{Envelope}
use trouper.Kernel.Outbox.{DeadLetter, DeadLetterReason}
use trouper.Kernel.Delivery.{Door, direct_push}
use trouper.Registry.{Registry}
use trouper.Registry.Slots.{Slot, Slots, set_slot}
use trouper.Registry.Sets.{PartitionSpec, ProjectorSetSpec}
use trouper.Schema.{SchemaTable}
use trouper.Fabric.Rules.{Rule}

pub record Endpoint (P : Type 0) : Type 0 where
  pub door : Door P
  -- accepted into the channel and not drained yet
  pub channel : List (Envelope P)
  pub is_closed : Bool

pub record Fabric (P : Type 0) : Type 0 where
  pub routing : Registry
  pub slots : Slots (Endpoint P)
  pub table : SchemaTable
  pub partitions : List PartitionSpec
  pub projector_sets : List ProjectorSetSpec
  pub rules : List Rule
  pub is_shutting_down : Bool
  pub dead_letters : List (DeadLetter P)

-- What the application brings: the reading of a shard key, which is `extract_key` of Fabric.Keys at its
-- payloads, and what the factory of a set does to the tables, given the path and the key.
pub record Application (P : Type 0) : Type 0 where
  pub extract : SchemaTable → Envelope P → String → Option String
  pub spawn_entity : PartitionSpec → ActorPath → String → Fabric P → Fabric P
  pub spawn_projector : ProjectorSetSpec → ActorPath → String → Fabric P → Fabric P

module _ {P : Type 0} where
  unfoldable pub dead_letter : Envelope P → DeadLetterReason → Fabric P → Fabric P
  dead_letter e reason f = record f {
    dead_letters = f.dead_letters ++ record { reason = reason; envelope = e } ∷ [];
  }

  -- An endpoint is shared: what a delivery does to it, the slot's holder sees.
  abbrev pub with_endpoint : Endpoint P → Option (Slot (Endpoint P)) → Option (Slot (Endpoint P))
  with_endpoint ep none = none
  with_endpoint ep (some s) = some (record s { endpoint = some ep })

  unfoldable pub store_endpoint : ActorPath → Endpoint P → Fabric P → Fabric P
  store_endpoint p ep f = record f { slots = set_slot p (with_endpoint ep (f.slots p)) f.slots }

  -- The answer is `none` for `Ok(())`, and the envelope that `Err` hands back.
  unfoldable pub deliver_with_retry : Envelope P → Endpoint P → Endpoint P × Option (Envelope P)
  deliver_with_retry e ep =
      if ep.is_closed then (ep, some e) else (record ep { channel = ep.channel ++ e ∷ [] }, none)

  -- The direct push, and the door's channel for what it hands back.
  abbrev pub fall_back :
      Endpoint P → Door P × Option (Envelope P) → Endpoint P × Option (Envelope P)
  fall_back ep (d, none) = (record ep { door = d }, none)
  fall_back ep (d, some refused) = deliver_with_retry refused (record ep { door = d })

  unfoldable pub deliver : Envelope P → Endpoint P → Run (Endpoint P × Option (Envelope P))
  unfolding direct_push deliver_with_retry
  deliver e ep = direct_push e ep.door >>= λ r. returns (fall_back ep r)
