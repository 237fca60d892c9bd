-- ===== src/Kernel/Outbox/Gate.antt =====
-- The emit gate of src/kernel.rs.
use trouper.Prelude.{
  ◌++◌, ◌≡◌, refl, ◌⊎◌, inl, inr, true, false, not, some, List, [], ◌∷◌, arith, Bool-cases, retain,
  any, Bool, All, All-append, contains,
}
use trouper.Journal.{ActorPath, SchemaId}
use trouper.Envelope.{raw}
use trouper.Kernel.Outbox.{
  DeadLetter, undeclared_emit, is_at, Intent, send, broadcast, reply, stop_self, emitted_schema,
  self_addressed, undeclared, dead_letter_schema, letters_of, is_stop, flush_outbox, flush_each,
}

module _ {P : Type 0} where
  -- The intent is a message that may leave: to the actor itself, or of a declared schema.
  abbrev pub IsDeclared : List SchemaId → ActorPath → Intent P → Type 0
  IsDeclared declared own intent =
      (is_stop intent ≡ false)
      × ((self_addressed own intent ≡ true)
          ⊎ ((s : SchemaId) × (emitted_schema intent ≡ some s) × (contains declared s ≡ true)))

  IsDeclared-cases :
      (declared : List SchemaId) (own : ActorPath) (intent : Intent P)
      → undeclared declared own intent ≡ false
      → is_stop intent ≡ false
      → IsDeclared declared own intent
  unfolding undeclared emitted_schema self_addressed
  IsDeclared-cases declared own (send e) u s = elim (Bool-cases (is_at own e.dest)) [
    | inl own_mail ↦ (refl, inl own_mail)
    | inr other ↦ (refl, inr (e.schema_id, refl, ground arith))
  ]
  IsDeclared-cases declared own (broadcast e) u s = (refl, inr (e.schema_id, refl, ground arith))
  IsDeclared-cases declared own (reply to i payload trace) u s = (refl, inr (i, refl, ground arith))
  IsDeclared-cases declared own stop_self u s = cc

  gate-IsDeclared :
      (declared : List SchemaId) (own : ActorPath) (intents : List (Intent P))
      → All
          (IsDeclared declared own)
          (retain (λ i. not (is_stop i)) (retain (λ i. not (undeclared declared own i)) intents))
  gate-IsDeclared declared own [] = tt
  gate-IsDeclared declared own (i ∷ is) = elim (Bool-cases (undeclared declared own i)) [
    | inl u ↦ rw u (gate-IsDeclared declared own is)
    | inr u ↦ elim (Bool-cases (is_stop i)) [
      | inl s ↦ rw (u, s) (gate-IsDeclared declared own is)
      | inr s ↦ rw (u, s) (IsDeclared-cases declared own i u s, gate-IsDeclared declared own is)
    ]
  ]

  -- A letter about an intent: of the gate's reason, and of what the intent would have sent.
  abbrev pub IsLetterOf : Intent P → DeadLetter P → Type 0
  IsLetterOf (send e) l = (l.reason ≡ undeclared_emit) × (l.envelope ≡ e)
  IsLetterOf (broadcast e) l = (l.reason ≡ undeclared_emit) × (l.envelope ≡ e)
  IsLetterOf (reply to s payload trace) l =
      (l.reason ≡ undeclared_emit)
      × (l.envelope.schema_id ≡ s)
      × (l.envelope.dest ≡ to)
      × (l.envelope.payload ≡ payload)
      × (l.envelope.trace ≡ trace)
  IsLetterOf stop_self l = ⊥

  -- The intent is a message to somebody else, of a schema that is not declared.
  abbrev pub IsForeign : List SchemaId → ActorPath → Intent P → Type 0
  IsForeign declared own intent =
      (self_addressed own intent ≡ false)
      × ((s : SchemaId) × (emitted_schema intent ≡ some s) × (contains declared s ≡ false))

  -- What becomes of the intents, one by one and in order: the routed ones, the letters, and whether
  -- one is a stop.
  pub data Gated (declared : List SchemaId) (own : ActorPath)
      : List (Intent P) → List (Intent P) → List (DeadLetter P) → Bool → Type 0 where
    nothing : Gated declared own [] [] [] false
    routes :
        {is rs : List (Intent P)} {ls : List (DeadLetter P)} {b : Bool} (i : Intent P)
        → IsDeclared declared own i
        → Gated declared own is rs ls b
        → Gated declared own (i ∷ is) (i ∷ rs) ls b
    refuses :
        {is rs : List (Intent P)} {ls : List (DeadLetter P)} {b : Bool} (i : Intent P)
        (l : DeadLetter P)
        → IsForeign declared own i
        → IsLetterOf i l
        → Gated declared own is rs ls b
        → Gated declared own (i ∷ is) rs (l ∷ ls) b
    stops :
        {is rs : List (Intent P)} {ls : List (DeadLetter P)} {b : Bool} (i : Intent P)
        → is_stop i ≡ true
        → Gated declared own is rs ls b
        → Gated declared own (i ∷ is) rs ls true

  gate-Gated :
      (declared : List SchemaId) (own : ActorPath) (intents : List (Intent P))
      → let gated = retain (λ i. not (undeclared declared own i)) intents in
        Gated declared own intents
          (retain (λ i. not (is_stop i)) gated)
          (letters_of (retain (undeclared declared own) intents))
          (any is_stop gated)
  unfolding undeclared emitted_schema self_addressed dead_letter_schema raw
  gate-Gated declared own [] = nothing
  gate-Gated declared own (send e ∷ is) = elim (Bool-cases (is_at own e.dest)) [
    | inl o ↦ rw o (routes (send e) (refl, inl o) (gate-Gated declared own is))
    | inr o ↦ elim (Bool-cases (contains declared e.schema_id)) [
      | inl k ↦
          rw (o, k)
            (routes (send e) (refl, inr (e.schema_id, refl, k)) (gate-Gated declared own is))
      | inr k ↦
          rw (o, k)
            (refuses (send e) _ (o, (e.schema_id, refl, k)) (refl, refl)
              (gate-Gated declared own is))
    ]
  ]
  gate-Gated declared own (broadcast e ∷ is) = elim (Bool-cases (contains declared e.schema_id)) [
    | inl k ↦
        rw k (routes (broadcast e) (refl, inr (e.schema_id, refl, k)) (gate-Gated declared own is))
    | inr k ↦ rw k (
        refuses (broadcast e) _ (refl, (e.schema_id, refl, k)) (refl, refl)
          (gate-Gated declared own is))
  ]
  gate-Gated declared own (reply to i payload trace ∷ is) =
      elim (Bool-cases (contains declared i)) [
        | inl k ↦ rw k (
            routes (reply to i payload trace) (refl, inr (i, refl, k)) (gate-Gated declared own is))
        | inr k ↦ rw k (
            refuses (reply to i payload trace) _ (refl, (i, refl, k)) (refl, refl, refl, refl, refl)
              (gate-Gated declared own is))
      ]
  gate-Gated declared own (stop_self ∷ is) = stops stop_self refl (gate-Gated declared own is)

  -- Every recorded intent has one fate, in order: it is routed, and then it is declared or the actor's
  -- mail to itself; or it is a message to somebody else of an undeclared schema, and becomes one dead
  -- letter of that reason with the message it would have been; or it is a stop request, which is
  -- reported.
  pub flush_outbox-IsDeclared :
      (declared : List SchemaId) (own : ActorPath) (intents : List (Intent P))
      → let f = flush_outbox declared own intents in
        All (IsDeclared declared own) f.routed
        × Gated declared own intents f.routed f.dropped f.stop
  unfolding flush_outbox
  flush_outbox-IsDeclared declared own intents =
      (gate-IsDeclared declared own intents, gate-Gated declared own intents)

  -- The flush of a batch routes declared messages only.
  pub flush_each-IsDeclared :
      (declared : List SchemaId) (own : ActorPath) (decisions : List (List (Intent P)))
      → All (IsDeclared declared own) (flush_each declared own decisions).routed
  unfolding flush_each
  flush_each-IsDeclared declared own [] = tt
  flush_each-IsDeclared declared own (outbox ∷ decisions) =
      let here = flush_outbox declared own outbox in
      elim (Bool-cases here.stop) [
        | inl s ↦ rw (s, flush_each) (flush_outbox-IsDeclared declared own outbox).0
        | inr s ↦
            rw (s, flush_each)
              (All-append (IsDeclared declared own) here.routed
                (flush_each declared own decisions).routed
                (flush_outbox-IsDeclared declared own outbox).0
                (flush_each-IsDeclared declared own decisions))
      ]

  -- An outbox that stops the actor ends the flush: what the later messages of the batch recorded is
  -- neither routed nor dead-lettered, although those messages are committed.
  flush_each-stopped :
      (declared : List SchemaId) (own : ActorPath) (before : List (List (Intent P)))
      (outbox : List (Intent P)) (later : List (List (Intent P)))
      → (flush_outbox declared own outbox).stop ≡ true
      → flush_each declared own (before ++ outbox ∷ later)
        ≡ flush_each declared own (before ++ outbox ∷ [])
  unfolding flush_each
  flush_each-stopped declared own [] outbox later s = rw (s, flush_each) refl
  flush_each-stopped declared own (first ∷ before) outbox later s =
      rw (flush_each-stopped declared own before outbox later s, flush_each) refl
