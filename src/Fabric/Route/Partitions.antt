-- ===== src/Fabric/Route/Partitions.antt =====
-- Sends to a partition's public path in `route` of src/kernel.rs.
use trouper.Prelude.{
  ℕ, ◌+◌, ◌<◌, String, ◌≡◌, refl, ap, ◌∙◌, ◌≢◌, ◌⊎◌, inl, inr, true, false, Option, none, some, [],
  ◌∷◌, ◌++◌, if◌then◌else◌, Bool-cases, Option-cases, u64_mod, returns,
}
use trouper.Journal.{ActorPath}
use trouper.Envelope.{Envelope}
use trouper.Inbox.{drop_old, push, into_envelope, queued_anyway}
use trouper.Inbox.Wf.{IsWf}
use trouper.Inbox.Policy.{FrontIsLive}
use trouper.Kernel.Delivery.{Door, direct_push}
use trouper.Kernel.Delivery.Direct.{Delivers, direct_push-Delivers}
use trouper.Registry.Paths.{member_path}
use trouper.Registry.Slots.{resolve, is_registered, resolved-is_registered}
use trouper.Registry.Sets.{PartitionSpec}
use trouper.Fabric.{Application, Fabric, Endpoint, deliver, deliver_with_retry, store_endpoint}
use trouper.Fabric.Rules.{apply_rules}
use trouper.Fabric.Resolve.{Resolved, entity, resolve_partition}
use trouper.Fabric.Route.{
  Routed, arrived, undelivered, first_or, partition_at, resolving, retried_path, deliver_at,
  route_path, retry, deliver_tee,
}

module _ {P : Type 0} where
  -- An endpoint that takes a message without a panic and whose channel is open.
  pub record IsReady (ep : Endpoint P) : Type 0 where
    pub is_wf : IsWf ep.door.inbox
    pub has_offsets : ep.door.inbox.next_offset + 1 < u64_mod
    pub evicts_mail : (ep.door.inbox.policy ≢ drop_old) ⊎ FrontIsLive ep.door.inbox.queue
    pub is_open : ep.is_closed ≡ false

  -- The message is in the inbox, or behind the channel with the inbox as it was.
  abbrev pub Holds : Envelope P → Endpoint P → Endpoint P → Type 0
  Holds e ep ep' =
      (Delivers e ep.door (ep'.door, none) × (ep'.channel ≡ ep.channel))
      ⊎ (ep' ≡ record ep { channel = ep.channel ++ e ∷ [] })

  deliver-at :
      (e : Envelope P) (ep : Endpoint P) (r : Door P × Option (Envelope P))
      → direct_push e ep.door ≡ returns r
      → Delivers e ep.door r
      → ep.is_closed ≡ false
      → (ep' : Endpoint P) × (deliver e ep ≡ returns (ep', none)) × Holds e ep ep'
  unfolding deliver deliver_with_retry
  deliver-at e ep (d, none) h a o = (record ep { door = d }, rw (deliver, h) refl, inl (a, refl))
  deliver-at e ep (d, some back) h a o = (
    record ep { channel = ep.channel ++ e ∷ [] },
    rw (deliver, h, deliver_with_retry, o, a.0, a.1) refl,
    inr refl,
  )

  pub deliver-Holds :
      (e : Envelope P) (ep : Endpoint P)
      → IsReady ep
      → (ep' : Endpoint P) × (deliver e ep ≡ returns (ep', none)) × Holds e ep ep'
  deliver-Holds e ep i =
      let (r, h, a) = direct_push-Delivers e ep.door i.is_wf i.has_offsets i.evicts_mail in
      deliver-at e ep r h a i.is_open

module _ {P : Type 0} (app : Application P) where
  open app use {extract, spawn_entity}

  -- The tables behind the activation of a partition's entity.
  abbrev pub activated : PartitionSpec → ActorPath → String → Fabric P → Fabric P
  activated spec p key f = if is_registered p f.slots then f else spawn_entity spec p key f

  -- What is known of a send to a partition's public path.
  pub record IsPartitionSend (e : Envelope P) (dest : ActorPath) (spec : PartitionSpec)
      (key : String) (f : Fabric P) : Type 0 where
    pub is_up : f.is_shutting_down ≡ false
    pub is_partition : partition_at dest f.partitions ≡ some spec
    pub has_key : extract f.table e spec.key_field ≡ some key

  resolving-partition :
      (e : Envelope P) (original dest : ActorPath) (spec : PartitionSpec) (key : String)
      (f : Fabric P)
      → IsPartitionSend e original spec key f
      → resolving app e original dest f
        ≡ (activated spec (member_path dest key) key f, entity (member_path dest key))
  unfolding resolve_partition
  resolving-partition e original dest spec key f s =
      let p = member_path dest key in
      rw (s.is_partition, resolve_partition, s.has_key)
        (elim (Bool-cases (is_registered p f.slots)) [
          | inl r ↦ rw (r) refl
          | inr r ↦ rw (r, s.is_up) refl
        ])

  deliver_at-IsReady :
      (e : Envelope P) (original p : ActorPath) (f : Fabric P) (ep : Endpoint P)
      → resolve p f.slots ≡ some ep
      → IsReady ep
      → (ep' : Endpoint P) × (deliver_at app e original p f
          ≡ returns (store_endpoint p ep' f, arrived p))
        × Holds e ep ep'
  unfolding deliver_at
  deliver_at-IsReady e original p f ep r i =
      let (ep', d, h) = deliver-Holds e ep i in (ep', rw (deliver_at, r, d) refl, h)

  -- A message to a partition's public path reaches the entity of its key, which is started if there is
  -- none: if the system is not shutting down, no rule tees the message, the key is in it, and the
  -- entity's endpoint is ready, it is in that endpoint, and its path is the answer. The path hangs
  -- below the interposer of an inline rule, if one matches, and below the public path otherwise.
  pub route_path-partition :
      (fresh : ℕ) (e : Envelope P) (original : ActorPath) (interposer : Option ActorPath)
      (spec : PartitionSpec) (key : String) (f : Fabric P) (ep : Endpoint P)
      → let p = member_path (first_or interposer original) key in
        apply_rules f.rules e original ≡ (none, interposer)
        → IsPartitionSend e original spec key f
        → resolve p (activated spec p key f).slots ≡ some ep
        → IsReady ep
        → (ep' : Endpoint P) × (route_path app fresh e original f
            ≡ returns (store_endpoint p ep' (activated spec p key f), arrived p))
          × Holds e ep ep'
  unfolding route_path deliver_tee
  route_path-partition fresh e original interposer spec key f ep u s r i =
      let dest = first_or interposer original in
      let p = member_path dest key in
      let (ep', d, h) = deliver_at-IsReady e original p (activated spec p key f) ep r i in
      (ep', rw (route_path, u, resolving-partition e original dest spec key f s, d) refl, h)

  direct_push-closed :
      (e : Envelope P) (d : Door P) → d.inbox.opened ≡ false → direct_push e d ≡ returns (d, some e)
  unfolding direct_push push into_envelope queued_anyway
  direct_push-closed e d o = rw (direct_push, push, o) refl

  deliver-closed :
      (e : Envelope P) (ep : Endpoint P)
      → ep.door.inbox.opened ≡ false
      → ep.is_closed ≡ true
      → deliver e ep ≡ returns (ep, some e)
  unfolding deliver deliver_with_retry
  deliver-closed e ep o c = rw (deliver, direct_push-closed e ep.door o, deliver_with_retry, c) refl

  -- What a retry can answer once it is resolved to `q`.
  retry-at :
      (e : Envelope P) (original dest q : ActorPath) (f f' : Fabric P)
      → resolving app e original dest f ≡ (f', entity q)
      → ((retry app e original dest f).1 ≡ undelivered e)
        ⊎ ((retry app e original dest f).1 ≡ arrived q)
  unfolding retry deliver_with_retry
  retry-at e original dest q f f' h = elim (Option-cases (resolve q f'.slots)) [
    | inl g ↦ inl (rw (retry, h, g) refl)
    | inr (ep, g) ↦ elim (Bool-cases ep.is_closed) [
      | inl c ↦ inl (rw (retry, h, g, deliver_with_retry, c) refl)
      | inr c ↦ inr (
          rw (retry, h, g, deliver_with_retry, c)
            (ap (λ (x : Fabric P × Resolved). arrived (retried_path app x.1 dest)) h))
    ]
  ]

  activated-is_registered :
      (spec : PartitionSpec) (p : ActorPath) (key : String) (f : Fabric P)
      → is_registered p f.slots ≡ true
      → activated spec p key f ≡ f
  activated-is_registered spec p key f r = rw (r) refl

  -- A message to a partition that no rule matches, whose key is there and whose entity is registered,
  -- but with its inbox and its channel closed, is, unless the system shuts down, never answered with
  -- the entity's path: the retry resolves below that path once more, so that the message comes back or
  -- goes to the path with the key twice.
  pub route_path-closed_entity :
      (fresh : ℕ) (e : Envelope P) (dest : ActorPath) (spec : PartitionSpec) (key : String)
      (f : Fabric P) (ep : Endpoint P)
      → let p = member_path dest key in
        apply_rules f.rules e dest ≡ (none, none)
        → IsPartitionSend e dest spec key f
        → resolve p f.slots ≡ some ep
        → ep.door.inbox.opened ≡ false
        → ep.is_closed ≡ true
        → (g : Fabric P) × (r : Routed P) × (route_path app fresh e dest f ≡ returns (g, r))
          × ((r ≡ undelivered e) ⊎ (r ≡ arrived (member_path p key)))
  unfolding route_path deliver_tee deliver_at
  route_path-closed_entity fresh e dest spec key f ep u s r o c =
      let p = member_path dest key in
      let f' = store_endpoint p ep f in
      (
        (retry app e dest p f').0,
        (retry app e dest p f').1,
        rw
            (
              route_path,
              u,
              resolving-partition e dest dest spec key f s
                  ∙ ap (λ g. (g, entity p))
                      (activated-is_registered spec p key f
                        (resolved-is_registered p f.slots ep r)),
              deliver_at,
              r,
              deliver-closed e ep o c,
            )
            refl,
        retry-at e dest p (member_path p key) f' _ (
            resolving-partition e dest p spec key f'
              (record { is_up = s.is_up; is_partition = s.is_partition; has_key = s.has_key })),
      )
