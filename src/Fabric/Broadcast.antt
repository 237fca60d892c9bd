-- ===== src/Fabric/Broadcast.antt =====
-- `broadcast` of src/kernel.rs: a copy to every live handler of the schema that is no member of a
-- projector set, and one copy per consuming set to the member of the fact's key. The causality ids of
-- the routed copies are `fresh` and the numbers behind it. Observations are left out.
pub mod Recipients
pub mod Once
use trouper.Prelude.{
  ℕ, ◌+◌, Bool, false, not, ◌||◌, Option, none, some, List, [], ◌∷◌, str_eq, if◌then◌else◌, retain,
  contains, Run, returns, ◌>>=◌,
}
use trouper.Journal.{ActorPath, SchemaId}
use trouper.Envelope.{path, Envelope}
use trouper.Kernel.Outbox.{shard_key_missing}
use trouper.Registry.{handlers_of}
use trouper.Registry.Paths.{member_path}
use trouper.Registry.Slots.{resolve}
use trouper.Registry.Sets.{ProjectorSetSpec, is_member, is_some, projector_sets_consuming}
use trouper.Fabric.{Application, Fabric, dead_letter, store_endpoint, deliver}
use trouper.Fabric.Route.{route_or_letter}

abbrev pub is_sender : Option ActorPath → ActorPath → Bool
is_sender none p = false
is_sender (some from) p = str_eq from p

abbrev pub is_from_member : List ProjectorSetSpec → Option ActorPath → Bool
is_from_member sets none = false
is_from_member sets (some from) = is_member sets from

module _ {P : Type 0} where
  unfoldable pub broadcast_targets : SchemaId → Fabric P → List ActorPath
  unfolding handlers_of resolve is_member
  broadcast_targets id f =
      let live = retain (λ p. is_some (resolve p f.slots)) (handlers_of id f.routing) in
      let member_paths = retain (is_member f.projector_sets) live in
      retain (λ p. not (contains member_paths p)) live

  -- A copy to one target, and the door's channel if its inbox refuses; what that refuses is skipped.
  unfoldable pub deliver_copy : Envelope P → ActorPath → Fabric P → Run (Fabric P)
  unfolding resolve deliver store_endpoint
  deliver_copy e p f = elim (resolve p f.slots) [
    | none ↦ returns f
    | some ep ↦ deliver e ep >>= λ r. returns (store_endpoint p r.0 f)
  ]

  unfoldable pub deliver_copies : Envelope P → List ActorPath → Fabric P → Run (Fabric P)
  unfolding deliver_copy
  deliver_copies e [] f = returns f
  deliver_copies e (p ∷ ps) f = deliver_copy e p f >>= λ f'. deliver_copies e ps f'

  -- Whether a derived path gets no copy: it sent the fact, a member sent it, or it has a copy.
  unfoldable pub is_served : Envelope P → List ActorPath → List ProjectorSetSpec → ActorPath → Bool
  unfolding is_member
  is_served e targets sets derived =
      is_sender e.from derived || is_from_member sets e.from || contains targets derived

module _ {P : Type 0} (app : Application P) where
  open app use {extract}

  -- One set's copy: the path it is routed to, if it is.
  unfoldable pub keyed_destination :
      Envelope P → List ActorPath → Fabric P → ProjectorSetSpec → Option ActorPath
  unfolding is_served member_path
  keyed_destination e targets f set = elim (extract f.table e set.key_field) [
    | none ↦ none
    | some key ↦
        if is_served e targets f.projector_sets (member_path set.public key)
        then none
        else some (member_path set.public key)
  ]

  unfoldable pub keyed_copy :
      ℕ → Envelope P → List ActorPath → ProjectorSetSpec → Fabric P → Run (Fabric P)
  unfolding keyed_destination route_or_letter dead_letter
  keyed_copy fresh e targets set f = elim (extract f.table e set.key_field) [
    | none ↦ returns (dead_letter e shard_key_missing f)
    | some key ↦ elim (keyed_destination e targets f set) [
      | none ↦ returns f
      | some derived ↦ route_or_letter app fresh (record e { dest = path derived }) f
    ]
  ]

  unfoldable pub keyed_copies :
      ℕ → Envelope P → List ActorPath → List ProjectorSetSpec → Fabric P → Run (Fabric P)
  unfolding keyed_copy
  keyed_copies fresh e targets [] f = returns f
  keyed_copies fresh e targets (set ∷ sets) f =
      keyed_copy fresh e targets set f >>= λ f'. keyed_copies (fresh + 1) e targets sets f'

  unfoldable pub broadcast : ℕ → SchemaId → Envelope P → Fabric P → Run (Fabric P)
  unfolding broadcast_targets deliver_copies keyed_copies projector_sets_consuming
  broadcast fresh id e f =
      let targets = broadcast_targets id f in
      deliver_copies e targets f >>= λ f'.
      keyed_copies fresh e targets (projector_sets_consuming id f'.projector_sets) f'
