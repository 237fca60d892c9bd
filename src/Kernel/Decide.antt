-- ===== src/Kernel/Decide.antt =====
-- Stages 2 to 5 of `step_es` in src/kernel.rs: the decide pass, the emit filter and the append. What
-- the application's handlers decide is a parameter; `fails` says whether the store answers the
-- append with an error.
use trouper.Prelude.{
  ℕ, ◌≡◌, refl, ◌⊎◌, inl, inr, Bool, true, false, not, ◌&&◌, Option, none, some, List, [], ◌∷◌,
  ◌++◌, map, str_eq, ◌==◌, if◌then◌else◌, length, retain, any, find, contains,
}
use trouper.Journal.{ActorPath, SchemaId, SeqNo, Event, Journal, append_events, append_catchup}
use trouper.Envelope.{path, TraceCtx, RecordedOrigin, Envelope, raw, with_from}
use trouper.Actor.{EventSourced}
use trouper.Inbox.{Inbox}
use trouper.Kernel.Outbox.{DeadLetter, unknown_schema, decode, undeclared_event, Intent}
use trouper.Kernel.Snapshot.{SnapshotCadence}

pub data Step : Type 0 where
  work idle crashed stop : Step

-- What one handler came to: `Ok(Ok(events))` and the outbox it filled, `Ok(Err(_))`, `Err(_)`.
pub data Dispatched (P : Type 0) : Type 0 where
  decided : List (Event P) → List (Intent P) → Dispatched P
  undecodable : Dispatched P
  poisoned : Dispatched P

-- The outcome of the decide pass; `panicked` when a handler did.
pub record Decided (P : Type 0) : Type 0 where
  pub recorded_events : List (Event P)
  pub outboxes : List (List (Intent P))
  pub letters : List (DeadLetter P)
  pub panicked : Bool

-- The outcome of the append: an error, a fact that the journal held already, or one seq per event.
pub data Appended (P S : Type 0) : Type 0 where
  refused : Appended P S
  already_held : Journal P S → ℕ → Appended P S
  landed : Journal P S → ℕ → List SeqNo → Appended P S

pub Appended-cases :
    {P S : Type 0} (r : Appended P S)
    → (r ≡ refused)
      ⊎ ((j : Journal P S) × (ingest : ℕ) × (r ≡ already_held j ingest))
      ⊎ ((j : Journal P S) × (ingest : ℕ) × (seqs : List SeqNo) × (r ≡ landed j ingest seqs))
Appended-cases refused = inl refl
Appended-cases (already_held j ingest) = inr (inl (j, ingest, refl))
Appended-cases (landed j ingest seqs) = inr (inr (j, ingest, seqs, refl))

module _ {P S : Type 0} (a : EventSourced P S) where
  open a use {State, apply}

  -- `CommandEntry`: `dispatch` decides only, on the state and the envelope.
  pub record CommandEntry : Type 0 where
    pub command : SchemaId
    pub dispatch : State → Envelope P → Dispatched P

  -- What a spawn fixes.
  pub record EsLoop : Type 0 where
    pub own_path : ActorPath
    pub step_batch : ℕ
    pub command_entries : List CommandEntry
    pub declared_emits : List SchemaId
    pub cadence : SnapshotCadence
    pub is_projector : Bool
    -- the trace that is minted for the envelopes of this step
    pub root : TraceCtx

  -- What a step changes: the actor's cell, its live state and journal, the store's arrival counter,
  -- the dead letters, and what left the actor.
  pub record Cell : Type 0 where
    pub inbox : Inbox (Envelope P)
    pub live : State
    pub journal : Journal P S
    pub next_ingest : ℕ
    pub last_event_seq : ℕ
    pub is_crashed : Bool
    pub is_stopping : Bool
    pub dead_letters : List (DeadLetter P)
    pub effects : List (Intent P)
    pub broadcasts : List (Envelope P)

  unfoldable pub find_entry : SchemaId → List CommandEntry → Option CommandEntry
  find_entry s entries = find (λ e. str_eq e.command s) entries

  -- The loop over the claims: decide only.
  unfoldable pub decide_all : List CommandEntry → State → List (ℕ × Envelope P) → Decided P
  unfolding find_entry
  decide_all entries st [] = record {
    recorded_events = [];
    outboxes = [];
    letters = [];
    panicked = false;
  }
  decide_all entries st ((offset, e) ∷ batch) =
      let rest : Decided P = decide_all entries st batch in
      elim (find_entry e.schema_id entries) [
        | none ↦ record rest {
          outboxes = [] ∷ rest.outboxes;
          letters = record { reason = unknown_schema; envelope = e } ∷ rest.letters;
        }
        | some entry ↦ elim (entry.dispatch st e) [
          | decided events outbox ↦ record rest {
            recorded_events = events ++ rest.recorded_events;
            outboxes = outbox ∷ rest.outboxes;
          }
          | undecodable ↦ record rest {
            outboxes = [] ∷ rest.outboxes;
            letters = record { reason = decode; envelope = e } ∷ rest.letters;
          }
          | poisoned ↦ record { recorded_events = []; outboxes = []; letters = []; panicked = true }
        ]
      ]

  -- The emit filter: what is journaled, and the letters of what is not.
  unfoldable pub declared_events : EsLoop → List (Event P) → List (Event P)
  declared_events loop events = retain (λ ev. contains loop.declared_emits ev.schema) events

  unfoldable pub undeclared_letters : EsLoop → List (Event P) → List (DeadLetter P)
  unfolding raw with_from
  undeclared_letters loop events =
      map
        (λ ev. record {
          reason = undeclared_event;
          envelope =
              with_from loop.own_path (raw ev.schema (path loop.own_path) ev.payload loop.root);
        })
        (retain (λ ev. not (contains loop.declared_emits ev.schema)) events)

  abbrev pub origins_of : List (ℕ × Envelope P) → List RecordedOrigin
  origins_of [] = []
  origins_of ((offset, e) ∷ batch) = elim e.recorded_origin [
    | none ↦ origins_of batch
    | some origin ↦ origin ∷ origins_of batch
  ]

  -- `all_same_origin`, with the origin: every claim is stamped, all with one fact.
  unfoldable pub same_origin : List (ℕ × Envelope P) → Option RecordedOrigin
  same_origin batch = elim (origins_of batch) [
    | [] ↦ none
    | first ∷ others ↦
        if not (
            any (λ (o : RecordedOrigin). not (str_eq o.journal first.journal && o.seq == first.seq))
              others)
          && length batch == length (origins_of batch)
        then some first
        else none
  ]

  abbrev pub all_some : List (Option SeqNo) → Bool
  all_some [] = true
  all_some (none ∷ rest) = false
  all_some (some seq ∷ rest) = all_some rest

  -- Stage 5.
  unfoldable pub append_stage : Bool → List (ℕ × Envelope P) → List (Event P) → Cell → Appended P S
  unfolding same_origin
  append_stage fails batch [] w = landed w.journal w.next_ingest []
  append_stage true batch (ev ∷ evs) w = refused
  append_stage false batch (ev ∷ evs) w = elim (same_origin batch) [
    | none ↦
        let (j, seqs, ingest) = append_events (ev ∷ evs) w.next_ingest w.journal in
        landed j ingest seqs
    | some origin ↦
        let scanned =
          map
            (λ event. record {
              journal = origin.journal;
              seq = origin.seq;
              ingest_seq = 0;
              scanned = event;
            })
            (ev ∷ evs) in
        let (j, slots, ingest) = append_catchup scanned w.next_ingest w.journal in
        if all_some slots
        then landed j ingest (map (λ event. 0) (ev ∷ evs))
        else already_held j ingest
  ]
