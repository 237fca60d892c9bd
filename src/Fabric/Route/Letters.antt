-- ===== src/Fabric/Route/Letters.antt =====
-- What `route` of src/kernel.rs hands back, and what it dead-letters.
use trouper.Prelude.{
  ℕ, String, ◌≡◌, refl, sym, ap, subst, ◌∙◌, ◌⊎◌, inl, inr, Option, none, some, [], ◌∷◌, ◌++◌,
  arith, Bool-cases, Option-cases, some≢none, IfReturns, IfReturns-mono, IfReturns-if, Run-cases,
}
use trouper.Journal.{ActorPath, SchemaId}
use trouper.Envelope.{path, slot, schema, Address, Envelope}
use trouper.Kernel.Outbox.{DeadLetterReason, shutting_down, shard_key_missing}
use trouper.Registry.{route}
use trouper.Registry.Slots.{resolve}
use trouper.Registry.Paths.{member_path}
use trouper.Registry.Sets.{PartitionSpec, ProjectorSetSpec, is_member}
use trouper.Fabric.{
  Application, Fabric, Endpoint, dead_letter, deliver, deliver_with_retry, store_endpoint,
}
use trouper.Fabric.Rules.{apply_rules}
use trouper.Fabric.Resolve.{
  Resolved, entity, missing, fell_through, resolve_partition, resolve_projector_set, activate,
}
use trouper.Fabric.Route.{
  Routed, arrived, undelivered, partition_at, projector_set_at, resolving, retried_path, deliver_at,
  deliver_resolved, route_path, route_schema, route_envelope, route_to, retry, deliver_tee,
  answer_of, first_or,
}
use trouper.Fabric.Route.Refusals.{
  HandsBack, deliver-HandsBack, Taken, deliver-Taken, deliver_with_retry-Taken,
}
use text.Mathlib.TextPositions.{eq_refl}

module _ {P : Type 0} where
  -- The dead letters of the tables, and the same with one more.
  abbrev pub IsLettered : DeadLetterReason → Envelope P → Fabric P → Fabric P → Type 0
  IsLettered reason e f g =
      (g.dead_letters ≡ f.dead_letters)
      ⊎ (g.dead_letters ≡ f.dead_letters ++ record { reason = reason; envelope = e } ∷ [])

  -- The endpoint that the tables have at the path has the envelope.
  abbrev pub Delivered : Envelope P → ActorPath → Fabric P → Type 0
  Delivered e p g =
      (ep : Endpoint P) × (ep' : Endpoint P) × (resolve p g.slots ≡ some ep') × Taken e ep ep'

  -- An arrival is a delivery without a dead letter, or a missing key with one; what comes back is the
  -- envelope that was sent, and is a dead letter already at most for a shutdown.
  abbrev pub Accounts : Envelope P → Fabric P → Fabric P × Routed P → Type 0
  Accounts e f (g, arrived p) =
      ((g.dead_letters ≡ f.dead_letters) × Delivered e p g)
      ⊎ (g.dead_letters
          ≡ f.dead_letters ++ record { reason = shard_key_missing; envelope = e } ∷ [])
  Accounts e f (g, undelivered back) = (back ≡ e) × IsLettered shutting_down e f g

  pub resolve-store_endpoint :
      (p : ActorPath) (ep ep' : Endpoint P) (f : Fabric P)
      → resolve p f.slots ≡ some ep
      → resolve p (store_endpoint p ep' f).slots ≡ some ep'
  unfolding resolve store_endpoint
  resolve-store_endpoint p ep ep' f h = elim (Option-cases (f.slots p)) [
    | inl n ↦ absurd (some≢none (sym (rw (resolve, n) at h)))
    | inr (s, n) ↦ rw (eq_refl p, n) refl
  ]

module _ {P : Type 0} (app : Application P) where
  open app use {extract, spawn_entity, spawn_projector}

  -- The factories of the application leave the dead letters alone.
  pub record KeepsLetters : Type 0 where
    pub by_entity :
        (spec : PartitionSpec) (p : ActorPath) (key : String) (f : Fabric P)
        → (spawn_entity spec p key f).dead_letters ≡ f.dead_letters
    pub by_projector :
        (spec : ProjectorSetSpec) (p : ActorPath) (key : String) (f : Fabric P)
        → (spawn_projector spec p key f).dead_letters ≡ f.dead_letters

  activate-keeps :
      (p : ActorPath) (spawn : Fabric P → Fabric P) (f : Fabric P)
      → (spawn f).dead_letters ≡ f.dead_letters
      → (activate app p spawn f).0.dead_letters ≡ f.dead_letters
  activate-keeps p spawn f h = ground (arith, h)

  resolve_projector_set-keeps :
      (k : KeepsLetters) (e : Envelope P) (spec : Option ProjectorSetSpec) (f : Fabric P)
      → (resolve_projector_set app e spec f).0.dead_letters ≡ f.dead_letters
  unfolding resolve_projector_set
  resolve_projector_set-keeps k e none f = refl
  resolve_projector_set-keeps k e (some spec) f =
      elim (Option-cases (extract f.table e spec.key_field)) [
        | inl h ↦ rw (resolve_projector_set, h) refl
        | inr (key, h) ↦
            rw (resolve_projector_set, h)
              (let p = member_path spec.public key in
                activate-keeps p (spawn_projector spec p key) f (k.by_projector spec p key f))
      ]

  resolve_partition-keeps :
      (k : KeepsLetters) (e : Envelope P) (dest : ActorPath) (spec : Option PartitionSpec)
      (projector_spec : Option ProjectorSetSpec) (f : Fabric P)
      → (resolve_partition app e dest spec projector_spec f).0.dead_letters ≡ f.dead_letters
  unfolding resolve_partition
  resolve_partition-keeps k e dest none js f = resolve_projector_set-keeps k e js f
  resolve_partition-keeps k e dest (some spec) js f =
      elim (Option-cases (extract f.table e spec.key_field)) [
        | inl h ↦ rw (resolve_partition, h) refl
        | inr (key, h) ↦
            rw (resolve_partition, h)
              (let p = member_path dest key in
                activate-keeps p (spawn_entity spec p key) f (k.by_entity spec p key f))
      ]

  -- No dead letter: a delivery, or the envelope itself comes back.
  abbrev Untouched : Envelope P → Fabric P → Fabric P × Routed P → Type 0
  Untouched e f (g, arrived p) = (g.dead_letters ≡ f.dead_letters) × Delivered e p g
  Untouched e f (g, undelivered back) = (back ≡ e) × (g.dead_letters ≡ f.dead_letters)

  answer_of-Untouched :
      (e : Envelope P) (f g : Fabric P) (p : ActorPath) (back : Option (Envelope P))
      → g.dead_letters ≡ f.dead_letters
      → HandsBack e back
      → (back ≡ none → Delivered e p g)
      → Untouched e f (g, answer_of app p back)
  answer_of-Untouched e f g p none h b d = (h, d refl)
  answer_of-Untouched e f g p (some back) h b d = (b, h)

  deliver_with_retry-HandsBack :
      (e : Envelope P) (ep : Endpoint P) → HandsBack e (deliver_with_retry e ep).1
  unfolding deliver_with_retry
  deliver_with_retry-HandsBack e ep = elim (Bool-cases ep.is_closed) [
    | inl c ↦ rw (deliver_with_retry, c) refl
    | inr c ↦ rw (deliver_with_retry, c) tt
  ]

  retry-Untouched :
      (k : KeepsLetters) (e : Envelope P) (original dest : ActorPath) (f g : Fabric P)
      → g.dead_letters ≡ f.dead_letters
      → Untouched e f (retry app e original dest g)
  unfolding retry store_endpoint
  retry-Untouched k e original dest f g h =
      let r = resolving app e original dest g in
      let l =
        resolve_partition-keeps k e dest (partition_at original g.partitions)
          (projector_set_at original g.projector_sets) g
        ∙ h in
      elim (Option-cases (resolve (retried_path app r.1 dest) r.0.slots)) [
        | inl n ↦ rw (retry, n) (refl, l)
        | inr (ep, n) ↦
            rw (retry, n)
              (let q = retried_path app r.1 dest in
                let d = deliver_with_retry e ep in
                answer_of-Untouched e f (store_endpoint q d.0 r.0) q d.1 l
                  (deliver_with_retry-HandsBack e ep)
                  (λ t. (
                    ep,
                    d.0,
                    resolve-store_endpoint q ep d.0 r.0 n,
                    deliver_with_retry-Taken e ep t,
                  )))
      ]

  deliver_at-Untouched :
      (k : KeepsLetters) (e : Envelope P) (original p : ActorPath) (f g : Fabric P)
      → g.dead_letters ≡ f.dead_letters
      → IfReturns (Untouched e f) (deliver_at app e original p g)
  unfolding deliver_at store_endpoint
  deliver_at-Untouched k e original p f g h = elim (Option-cases (resolve p g.slots)) [
    | inl n ↦ rw (deliver_at, n) (refl, h)
    | inr (ep, n) ↦ elim (Run-cases (deliver e ep)) [
      | inl m ↦ rw (deliver_at, n, m) tt
      | inr ((ep', none), m) ↦
          let t = subst (IfReturns (λ r. r.1 ≡ none → Taken e ep r.0)) m (deliver-Taken e ep) in
          rw (deliver_at, n, m) (h, (ep, ep', resolve-store_endpoint p ep ep' g n, t refl))
      | inr ((ep', some back), m) ↦
          let b : back ≡ e = subst (IfReturns (λ r. HandsBack e r.1)) m (deliver-HandsBack e ep) in
          rw (deliver_at, n, m)
            (subst (λ x. Untouched x f (retry app back original p (store_endpoint p ep' g))) b
              (retry-Untouched k back original p f (store_endpoint p ep' g) h))
    ]
  ]

  deliver_tee-keeps :
      (fresh : ℕ) (observer : Option ActorPath) (e : Envelope P) (f : Fabric P)
      → (deliver_tee fresh observer e f).dead_letters ≡ f.dead_letters
  unfolding deliver_tee store_endpoint
  deliver_tee-keeps fresh none e f = refl
  deliver_tee-keeps fresh (some o) e f = elim (Option-cases (resolve o f.slots)) [
    | inl n ↦ rw (deliver_tee, n) refl
    | inr (ep, n) ↦ rw (deliver_tee, n) refl
  ]

  Untouched-Accounts :
      (e : Envelope P) (f : Fabric P) (r : Fabric P × Routed P) → Untouched e f r → Accounts e f r
  Untouched-Accounts e f (g, arrived p) h = inl h
  Untouched-Accounts e f (g, undelivered back) h = (h.0, inl h.1)

  deliver_at-Accounts :
      (k : KeepsLetters) (e : Envelope P) (original p : ActorPath) (f g : Fabric P)
      → g.dead_letters ≡ f.dead_letters
      → IfReturns (Accounts e f) (deliver_at app e original p g)
  deliver_at-Accounts k e original p f g h =
      IfReturns-mono (Accounts e f) (deliver_at app e original p g)
        (deliver_at-Untouched k e original p f g h) (Untouched-Accounts e f)

  deliver_resolved-Accounts :
      (k : KeepsLetters) (e : Envelope P) (original dest : ActorPath) (f : Fabric P)
      (r : Fabric P × Resolved)
      → r.0.dead_letters ≡ f.dead_letters
      → IfReturns (Accounts e f) (deliver_resolved app e original dest r)
  unfolding dead_letter
  deliver_resolved-Accounts k e original dest f (g, fell_through) h =
      deliver_at-Accounts k e original dest f g h
  deliver_resolved-Accounts k e original dest f (g, entity p) h =
      deliver_at-Accounts k e original p f g h
  deliver_resolved-Accounts k e original dest f (g, missing) h =
      inr (ap (λ l. l ++ record { reason = shard_key_missing; envelope = e } ∷ []) h)

  route_path-Accounts :
      (k : KeepsLetters) (fresh : ℕ) (e : Envelope P) (original : ActorPath) (f : Fabric P)
      → IfReturns (Accounts e f) (route_path app fresh e original f)
  unfolding route_path
  route_path-Accounts k fresh e original f =
      let u = apply_rules f.rules e original in
      let dest = first_or u.1 original in
      let g = deliver_tee fresh u.0 e f in
      deliver_resolved-Accounts k e original dest f (resolving app e original dest g) (
        resolve_partition-keeps k e dest (partition_at original g.partitions)
          (projector_set_at original g.projector_sets) g
        ∙ deliver_tee-keeps fresh u.0 e f)

  route_schema-Accounts :
      (e : Envelope P) (id : SchemaId) (f : Fabric P) → Accounts e f (route_schema app e id f)
  unfolding route_schema store_endpoint
  route_schema-Accounts e id f =
      let r = route (is_member f.projector_sets) id f.routing in
      elim (Option-cases r.0) [
        | inl n ↦ rw (route_schema, n) (refl, inl refl)
        | inr (target, n) ↦ elim (Option-cases (resolve target f.slots)) [
          | inl m ↦ rw (route_schema, n, m) (refl, inl refl)
          | inr (ep, m) ↦
              rw (route_schema, n, m)
                (let d = deliver_with_retry e ep in
                  let g : Fabric P = record f { routing = r.1 } in
                  Untouched-Accounts e f (store_endpoint target d.0 g, answer_of app target d.1)
                    (answer_of-Untouched e f (store_endpoint target d.0 g) target d.1 refl
                      (deliver_with_retry-HandsBack e ep)
                      (λ t. (
                        ep,
                        d.0,
                        resolve-store_endpoint target ep d.0 g m,
                        deliver_with_retry-Taken e ep t,
                      ))))
        ]
      ]

  route_to-Accounts :
      (k : KeepsLetters) (fresh : ℕ) (e : Envelope P) (to : Address) (f : Fabric P)
      → IfReturns (Accounts e f) (route_to app fresh e to f)
  route_to-Accounts k fresh e (path p) f = route_path-Accounts k fresh e p f
  route_to-Accounts k fresh e (slot lease) f = (refl, inl refl)
  route_to-Accounts k fresh e (schema id) f = route_schema-Accounts e id f

  -- Every message that is routed is accounted for, whatever its address and the tables: if the routing
  -- returns, an arrival names a path whose endpoint has the message, taken by its door or at the end of
  -- its channel, with no dead letter of the kernel's, or has the one of a missing shard key; and what
  -- comes back is the message itself, with no dead letter or the one of a shutdown. The factories are
  -- asked to leave the dead letters alone. What an inbox evicts for the message is the door's to report.
  pub route_envelope-Accounts :
      (k : KeepsLetters) (fresh : ℕ) (e : Envelope P) (f : Fabric P)
      → IfReturns (Accounts e f) (route_envelope app fresh e f)
  unfolding route_envelope dead_letter
  route_envelope-Accounts k fresh e f =
      IfReturns-if (Accounts e f) f.is_shutting_down _ _ (λ _. (refl, inr refl))
        (λ _. route_to-Accounts k fresh e e.dest f)
