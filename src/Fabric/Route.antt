-- ===== src/Fabric/Route.antt =====
-- `route` of src/kernel.rs: where an envelope goes, stage by stage. A fresh causality id is the number
-- `fresh`. Observations are left out.
pub mod Partitions
pub mod Refusals
pub mod Letters
use trouper.Prelude.{ℕ, Option, none, some, List, str_eq, if◌then◌else◌, find, Run, returns, ◌>>=◌}
use trouper.Journal.{ActorPath, SchemaId}
use trouper.Envelope.{Address, path, slot, schema, caused, Envelope, raw, with_from}
use trouper.Kernel.Outbox.{shutting_down, unresolvable, shard_key_missing}
use trouper.Registry.{route}
use trouper.Registry.Slots.{resolve}
use trouper.Registry.Sets.{PartitionSpec, ProjectorSetSpec, projector_set_owning, is_member}
use trouper.Fabric.{Application, Fabric, dead_letter, store_endpoint, deliver, deliver_with_retry}
use trouper.Fabric.Rules.{apply_rules}
use trouper.Fabric.Resolve.{Resolved, fell_through, missing, entity, resolve_partition}

-- `Result<ActorPath, Envelope>`
pub data Routed (P : Type 0) : Type 0 where
  arrived : ActorPath → Routed P
  undelivered : Envelope P → Routed P

abbrev pub first_or {ℓ} : {A : Type ℓ} → Option A → A → A
first_or none b = b
first_or (some a) b = a

abbrev pub or_else_set {ℓ} : {A : Type ℓ} → Option A → Option A → Option A
or_else_set none b = b
or_else_set (some a) b = some a

unfoldable pub partition_at : ActorPath → List PartitionSpec → Option PartitionSpec
partition_at p sets = find (λ (s : PartitionSpec). str_eq s.public p) sets

-- The set with this public path, or the set that owns the path.
unfoldable pub projector_set_at : ActorPath → List ProjectorSetSpec → Option ProjectorSetSpec
unfolding projector_set_owning
projector_set_at p sets =
    or_else_set (find (λ (s : ProjectorSetSpec). str_eq s.public p) sets)
      (projector_set_owning p sets)

module _ {P : Type 0} where
  -- `shared_from`, with the sender.
  unfoldable pub tee_copy : ℕ → ActorPath → Envelope P → Envelope P
  unfolding raw caused with_from
  tee_copy fresh observer e =
      with_from (first_or e.from "anonymous")
        (record (raw e.schema_id (path observer) e.payload (caused fresh e.trace)) {
          recorded_origin = e.recorded_origin;
        })

  -- The copy goes to the observer's channel, if it has an endpoint, whatever comes of it.
  unfoldable pub deliver_tee : ℕ → Option ActorPath → Envelope P → Fabric P → Fabric P
  unfolding tee_copy resolve deliver_with_retry store_endpoint
  deliver_tee fresh none e f = f
  deliver_tee fresh (some observer) e f = elim (resolve observer f.slots) [
    | none ↦ f
    | some ep ↦ store_endpoint observer (deliver_with_retry (tee_copy fresh observer e) ep).0 f
  ]

module _ {P : Type 0} (app : Application P) where
  abbrev pub resolving : Envelope P → ActorPath → ActorPath → Fabric P → Fabric P × Resolved
  resolving e original dest f =
      resolve_partition app e dest (partition_at original f.partitions)
        (projector_set_at original f.projector_sets) f

  abbrev pub retried_path : Resolved → ActorPath → ActorPath
  retried_path (entity p) dest = p
  retried_path fell_through dest = dest
  retried_path missing dest = dest

  abbrev pub answer_of : ActorPath → Option (Envelope P) → Routed P
  answer_of p none = arrived p
  answer_of p (some back) = undelivered back

  -- The one retry of a delivery that a closed endpoint refused.
  unfoldable pub retry : Envelope P → ActorPath → ActorPath → Fabric P → Fabric P × Routed P
  unfolding resolve_partition partition_at projector_set_at resolve deliver_with_retry
      store_endpoint
  retry e original dest f =
      let (f', resolved) = resolving e original dest f in
      let p = retried_path resolved dest in
      elim (resolve p f'.slots) [
        | none ↦ (f', undelivered e)
        | some ep ↦ let r = deliver_with_retry e ep in (store_endpoint p r.0 f', answer_of p r.1)
      ]

  -- Behind the resolution: the endpoint, the delivery, and the retry.
  unfoldable pub deliver_at :
      Envelope P → ActorPath → ActorPath → Fabric P → Run (Fabric P × Routed P)
  unfolding retry resolve deliver store_endpoint
  deliver_at e original p f = elim (resolve p f.slots) [
    | none ↦ returns (f, undelivered e)
    | some ep ↦ deliver e ep >>= λ r. elim r.1 [
      | none ↦ returns (store_endpoint p r.0 f, arrived p)
      | some back ↦ returns (retry back original p (store_endpoint p r.0 f))
    ]
  ]

  abbrev pub deliver_resolved :
      Envelope P → ActorPath → ActorPath → Fabric P × Resolved → Run (Fabric P × Routed P)
  deliver_resolved e original dest (f, fell_through) = deliver_at e original dest f
  deliver_resolved e original dest (f, entity p) = deliver_at e original p f
  deliver_resolved e original dest (f, missing) =
      returns (dead_letter e shard_key_missing f, arrived dest)

  -- The arm of a path.
  unfoldable pub route_path : ℕ → Envelope P → ActorPath → Fabric P → Run (Fabric P × Routed P)
  unfolding apply_rules deliver_tee deliver_at dead_letter resolve_partition partition_at
      projector_set_at
  route_path fresh e original f =
      let (observer, interposer) = apply_rules f.rules e original in
      let dest = first_or interposer original in
      deliver_resolved e original dest (resolving e original dest (deliver_tee fresh observer e f))

  -- The arm of a schema.
  unfoldable pub route_schema : Envelope P → SchemaId → Fabric P → Fabric P × Routed P
  unfolding route is_member resolve deliver_with_retry store_endpoint
  route_schema e id f =
      let (picked, routing) = route (is_member f.projector_sets) id f.routing in
      let f' = record f { routing = routing } in
      elim picked [
        | none ↦ (f', undelivered e)
        | some target ↦ elim (resolve target f'.slots) [
          | none ↦ (f', undelivered e)
          | some ep ↦
              let r = deliver_with_retry e ep in
              (store_endpoint target r.0 f', answer_of target r.1)
        ]
      ]

  abbrev pub route_to : ℕ → Envelope P → Address → Fabric P → Run (Fabric P × Routed P)
  route_to fresh e (path p) f = route_path fresh e p f
  route_to fresh e (slot lease) f = returns (f, undelivered e)
  route_to fresh e (schema id) f = returns (route_schema e id f)

  unfoldable pub route_envelope : ℕ → Envelope P → Fabric P → Run (Fabric P × Routed P)
  unfolding route_path route_schema dead_letter
  route_envelope fresh e f =
      if f.is_shutting_down
      then returns (dead_letter e shutting_down f, undelivered e)
      else route_to fresh e e.dest f

  -- What the callers do with an envelope that comes back.
  abbrev pub letter_if_undelivered : Fabric P × Routed P → Fabric P
  letter_if_undelivered (f, arrived p) = f
  letter_if_undelivered (f, undelivered back) = dead_letter back unresolvable f

  unfoldable pub route_or_letter : ℕ → Envelope P → Fabric P → Run (Fabric P)
  unfolding route_envelope dead_letter
  route_or_letter fresh e f = route_envelope fresh e f >>= λ r. returns (letter_if_undelivered r)
