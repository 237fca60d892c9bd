-- ===== src/System/Teardown.antt =====
-- What a teardown of src/system.rs leaves.
use trouper.Prelude.{
  ◌≡◌, refl, ap, ◌∙◌, ◌≢◌, inl, inr, Bool, false, not, ◌&&◌, ℕ, Option, none, some, List, [], ◌∷◌,
  ◌++◌, map, arith, str_eq, eq_iff, if◌then◌else◌, Bool-cases, Option-cases, contains,
  contains-retain,
}
use text.Mathlib.TextPositions.{eq_refl}
use trouper.Journal.{ActorPath, SchemaId}
use trouper.Envelope.{Envelope}
use trouper.Inbox.{drain_slots, drain_live, close}
use trouper.Kernel.Outbox.{DeadLetter, stopped_with_mail}
use trouper.Registry.{Registry, drop_routes_of, handlers_of}
use trouper.Registry.Handlers.{handlers_of-drop_routes_of}
use trouper.Registry.Slots.{Slots, remove_slot}
use trouper.System.{
  Tables, Mailbox, StopReason, teardown_tables, mail_left, stopped_letter, without_key, slots_or,
}

remove_slot-at :
    {E : Type 0} (path q : ActorPath) (slots : Slots E)
    → slots_or slots (remove_slot path slots) q ≡ (if str_eq q path then none else slots q)
unfolding remove_slot
remove_slot-at path q slots = elim (Option-cases (slots path)) [
  | inl h ↦ rw (remove_slot, h) (ground (arith, eq_iff q path, h))
  | inr (slot, h) ↦ rw (remove_slot, h) refl
]

-- At the key that is taken out, and at another.
without_key_self {ℓ} :
    {A : Type ℓ} (path : ActorPath) (gone : A) (table : ActorPath → A)
    → without_key path gone table path ≡ gone
without_key_self path gone table = rw (eq_refl path) refl

differs : (q path : ActorPath) → q ≢ path → str_eq q path ≡ false
differs q path n = elim (Bool-cases (str_eq q path)) [
  | inl e ↦ absurd (n ((eq_iff q path).0 e))
  | inr e ↦ e
]

without_key_other {ℓ} :
    {A : Type ℓ} (path q : ActorPath) (gone : A) (table : ActorPath → A)
    → q ≢ path
    → without_key path gone table q ≡ table q
without_key_other path q gone table n = rw (differs q path n) refl

kept : (b : Bool) {c : Bool} → c ≡ false → (b && not c) ≡ b
kept b h = ground (arith, h)

contains-dropped :
    (path q : ActorPath) (s : SchemaId) (r : Registry)
    → contains (handlers_of s (drop_routes_of path r)) q
      ≡ (contains (handlers_of s r) q && not (str_eq q path))
contains-dropped path q s r =
    ap (λ l. contains l q) (handlers_of-drop_routes_of s path r)
    ∙ contains-retain (λ p. not (str_eq p path)) (handlers_of s r) q

module _ {P : Type 0} where
  -- The mail in the slots that are not claimed, in order.
  abbrev pub live_mail : List (ℕ × Option (Envelope P)) → List (Envelope P)
  live_mail [] = []
  live_mail ((o, none) ∷ slots) = live_mail slots
  live_mail ((o, some e) ∷ slots) = e ∷ live_mail slots

  -- What a teardown owes to the dead letters, one by one: a letter for stopped mail for each message.
  abbrev pub owed : Option (Mailbox P) → List (DeadLetter P)
  owed none = []
  owed (some cell) =
      if cell.is_locked
      then []
      else map (λ e. record { reason = stopped_with_mail; envelope = e })
          (live_mail cell.inbox.queue)

  drain_slots-live_mail :
      (slots : List (ℕ × Option (Envelope P))) → (drain_slots slots).0 ≡ live_mail slots
  unfolding drain_slots
  drain_slots-live_mail [] = refl
  drain_slots-live_mail ((o, none) ∷ slots) = drain_slots-live_mail slots
  drain_slots-live_mail ((o, some e) ∷ slots) = ap (λ l. e ∷ l) (drain_slots-live_mail slots)

  mail_left-owed : (cell : Option (Mailbox P)) → map stopped_letter (mail_left cell) ≡ owed cell
  unfolding mail_left drain_live close
  mail_left-owed none = refl
  mail_left-owed (some cell) = elim (Bool-cases cell.is_locked) [
    | inl e ↦ rw (e, mail_left) refl
    | inr e ↦ rw (e, mail_left) (ap (map stopped_letter) (drain_slots-live_mail cell.inbox.queue))
  ]

module _ {P E : Type 0} where
  -- Nothing of the actor is left in the tables that the runtime looks at.
  pub record IsGone (path : ActorPath) (t : Tables P E) : Type 0 where
    pub no_cell : t.cells path ≡ none
    pub no_slot : t.slots path ≡ none
    pub no_state : t.es_state path ≡ false
    pub no_spec : t.specs path ≡ none
    pub no_route : (s : SchemaId) → contains (handlers_of s t.routing) path ≡ false

  -- Another actor's entries are as they were.
  pub record IsKept (q : ActorPath) (t t' : Tables P E) : Type 0 where
    pub cell : t'.cells q ≡ t.cells q
    pub slot : t'.slots q ≡ t.slots q
    pub state : t'.es_state q ≡ t.es_state q
    pub spec : t'.specs q ≡ t.specs q
    pub route :
        (s : SchemaId)
        → contains (handlers_of s t'.routing) q ≡ contains (handlers_of s t.routing) q

  -- After a teardown that no other one of the path overlaps nothing of the actor is left in the tables of cells, slots, states, specs and
  -- routes, every other actor's entries are as before, and each message that stood unclaimed in the inbox is
  -- a dead letter for stopped mail, in order, unless somebody held the inbox's lock.
  pub teardown_tables-IsGone :
      (path : ActorPath) (reason : StopReason) (t : Tables P E)
      → let t' = teardown_tables path reason t in
        IsGone path t'
        × ((q : ActorPath) → q ≢ path → IsKept q t t')
        × (t'.dead_letters ≡ t.dead_letters ++ owed (t.cells path))
  unfolding teardown_tables
  teardown_tables-IsGone path reason t = (
    record {
      no_cell = without_key_self path none t.cells;
      no_slot = remove_slot-at path path t.slots ∙ without_key_self path none t.slots;
      no_state = without_key_self path false t.es_state;
      no_spec = without_key_self path none t.specs;
      no_route = λ s. contains-dropped path path s t.routing ∙ ground (arith, eq_refl path);
    },
    λ q n. record {
      cell = without_key_other path q none t.cells n;
      slot = remove_slot-at path q t.slots ∙ without_key_other path q none t.slots n;
      state = without_key_other path q false t.es_state n;
      spec = without_key_other path q none t.specs n;
      route = λ s.
          contains-dropped path q s t.routing
          ∙ kept (contains (handlers_of s t.routing) q) (differs q path n);
    },
    ap (λ l. t.dead_letters ++ l) (mail_left-owed (t.cells path)),
  )
