-- ===== src/Kernel/Outbox.antt =====
-- The deferred effects of a handler: `Intent` and `Outbox` of src/context.rs, and the gate of
-- `flush_outbox` in src/kernel.rs. What is routed, broadcast or replied is answered as a list, in
-- order: the routing itself belongs to the registry.
pub mod Gate
mod Tests
use trouper.Prelude.{
  Bool, true, false, not, ◌&&◌, Option, none, some, List, [], ◌∷◌, ◌++◌, str_eq, if◌then◌else◌, any,
  retain, contains,
}
use trouper.Journal.{ActorPath, SchemaId}
use trouper.Envelope.{Address, path, slot, schema, TraceCtx, Envelope, raw}

pub data DeadLetterReason : Type 0 where
  unresolvable unknown_schema decode inbox_refused stopped_with_mail shutting_down undeclared_event
        undeclared_emit shard_key_missing :
      DeadLetterReason

-- The letter's schema, destination and trace are its envelope's; the detail text is left out.
pub record DeadLetter (P : Type 0) : Type 0 where
  pub reason : DeadLetterReason
  pub envelope : Envelope P

pub data Intent (P : Type 0) : Type 0 where
  send : Envelope P → Intent P
  broadcast : Envelope P → Intent P
  -- to, schema, payload, trace
  reply : Address → SchemaId → P → TraceCtx → Intent P
  stop_self : Intent P

-- What one flush did.
pub record Flushed (P : Type 0) : Type 0 where
  pub routed : List (Intent P)
  pub dropped : List (DeadLetter P)
  pub stop : Bool

abbrev pub is_at : ActorPath → Address → Bool
is_at own (path p) = str_eq p own
is_at own (slot lease) = false
is_at own (schema s) = false

module _ {P : Type 0} where
  unfoldable pub emitted_schema : Intent P → Option SchemaId
  emitted_schema (send e) = some e.schema_id
  emitted_schema (broadcast e) = some e.schema_id
  emitted_schema (reply to s payload trace) = some s
  emitted_schema stop_self = none

  unfoldable pub self_addressed : ActorPath → Intent P → Bool
  self_addressed own (send e) = is_at own e.dest
  self_addressed own (broadcast e) = false
  self_addressed own (reply to s payload trace) = false
  self_addressed own stop_self = false

  unfoldable pub undeclared : List SchemaId → ActorPath → Intent P → Bool
  unfolding emitted_schema self_addressed
  undeclared declared own intent =
      not (self_addressed own intent)
      && elim (emitted_schema intent) [ none ↦ false | some s ↦ not (contains declared s) ]

  -- `dead_letter_schema`
  unfoldable pub dead_letter_schema : Intent P → List (DeadLetter P)
  unfolding raw
  dead_letter_schema (send e) = record { reason = undeclared_emit; envelope = e } ∷ []
  dead_letter_schema (broadcast e) = record { reason = undeclared_emit; envelope = e } ∷ []
  dead_letter_schema (reply to s payload trace) =
      record { reason = undeclared_emit; envelope = raw s to payload trace } ∷ []
  dead_letter_schema stop_self = []

  abbrev pub letters_of : List (Intent P) → List (DeadLetter P)
  letters_of [] = []
  letters_of (intent ∷ intents) = dead_letter_schema intent ++ letters_of intents

  abbrev pub is_stop : Intent P → Bool
  is_stop stop_self = true
  is_stop (send e) = false
  is_stop (broadcast e) = false
  is_stop (reply to s payload trace) = false

  unfoldable pub flush_outbox : List SchemaId → ActorPath → List (Intent P) → Flushed P
  unfolding undeclared dead_letter_schema
  flush_outbox declared own intents =
      let gated = retain (λ i. not (undeclared declared own i)) intents in
      let ungated = retain (undeclared declared own) intents in
      record {
        routed = retain (λ i. not (is_stop i)) gated;
        dropped = letters_of ungated;
        stop = any is_stop gated;
      }

  -- Stage 8 of `step_es`: the outboxes in order, up to the first one that stops the actor.
  unfoldable pub flush_each : List SchemaId → ActorPath → List (List (Intent P)) → Flushed P
  unfolding flush_outbox
  flush_each declared own [] = record { routed = []; dropped = []; stop = false }
  flush_each declared own (outbox ∷ decisions) =
      let here = flush_outbox declared own outbox in
      let later = flush_each declared own decisions in
      if here.stop then here else record {
        routed = here.routed ++ later.routed;
        dropped = here.dropped ++ later.dropped;
        stop = later.stop;
      }
