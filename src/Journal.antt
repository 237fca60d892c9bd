-- ===== src/Journal.antt =====
-- src/journal.rs: one actor's in-memory journal of events and snapshots.
-- `P` is the payload of an event and `S` the captured state of a snapshot; neither is looked into
-- here. A path and a schema are their names.
pub mod Seqs
pub mod Append
mod Tests
pub mod Store
use trouper.Prelude.{
  ℕ, ◌-◌, String, Bool, false, ◌&&◌, ◌||◌, Option, none, some, List, [], ◌∷◌, ◌++◌, str_eq, ltb,
  ◌==◌, if◌then◌else◌, u64_max, add_u64, retain, any,
}

abbrev pub ActorPath : Type 0
ActorPath = String

abbrev pub SchemaId : Type 0
SchemaId = String

abbrev pub SeqNo : Type 0
SeqNo = ℕ

abbrev pub before_genesis : SeqNo
before_genesis = u64_max

abbrev pub is_before_genesis : SeqNo → Bool
is_before_genesis seq = seq == u64_max

pub record Event (P : Type 0) : Type 0 where
  pub schema : SchemaId
  pub payload : P

pub data EventOrigin : Type 0 where
  recorded : EventOrigin
  catch_up : ActorPath → SeqNo → EventOrigin

pub data JournalEntry (P S : Type 0) : Type 0 where
  -- seq, event, origin, ingest_seq
  event : SeqNo → Event P → EventOrigin → ℕ → JournalEntry P S
  snapshot : SeqNo → S → JournalEntry P S

pub record Journal (P S : Type 0) : Type 0 where
  pub entries : List (JournalEntry P S)
  -- Count of appended events: the anchor for the next event's seq.
  pub event_count : ℕ
  pub last_snapshot_ms : Option ℕ

-- One event entry as the store presents it.
pub record JournaledEvent (P : Type 0) : Type 0 where
  pub seq : SeqNo
  pub journaled : Event P
  pub origin : EventOrigin
  pub ingest_seq : ℕ

pub record ScannedEvent (P : Type 0) : Type 0 where
  pub journal : ActorPath
  pub seq : SeqNo
  pub ingest_seq : ℕ
  pub scanned : Event P

-- The snapshot is its seq and its state.
pub record Replayed (P S : Type 0) : Type 0 where
  pub latest : Option (SeqNo × S)
  pub tail : List (Event P)
  pub events : List (JournaledEvent P)

module _ {P S : Type 0} where
  abbrev pub seq_of : JournalEntry P S → SeqNo
  seq_of (event seq ev origin ingest) = seq
  seq_of (snapshot seq state) = seq

  abbrev pub as_event : JournalEntry P S → Option (Event P)
  as_event (event seq ev origin ingest) = some ev
  as_event (snapshot seq state) = none

  abbrev pub empty_journal : Journal P S
  empty_journal = record { entries = []; event_count = 0; last_snapshot_ms = none }

  unfoldable pub next_seq : Journal P S → SeqNo
  next_seq j = j.event_count

  -- Zero, the genesis, when there is no event.
  unfoldable pub last_seq : Journal P S → SeqNo
  last_seq j = j.event_count - 1

  unfoldable pub append_event_with_origin :
      Event P → EventOrigin → ℕ → Journal P S → Journal P S × SeqNo
  unfolding next_seq
  append_event_with_origin ev origin ingest j =
      let seq = next_seq j in
      (
        record j {
          entries = j.entries ++ event seq ev origin ingest ∷ [];
          event_count = add_u64 j.event_count 1;
        },
        seq,
      )

  unfoldable pub append_event : Event P → ℕ → Journal P S → Journal P S × SeqNo
  unfolding append_event_with_origin
  append_event ev ingest j = append_event_with_origin ev recorded ingest j

  abbrev pub is_origin : ActorPath → SeqNo → JournalEntry P S → Bool
  is_origin source source_seq (event seq ev recorded ingest) = false
  is_origin source source_seq (event seq ev (catch_up s q) ingest) =
      str_eq s source && q == source_seq
  is_origin source source_seq (snapshot seq state) = false

  unfoldable pub holds_origin : ActorPath → SeqNo → Journal P S → Bool
  holds_origin source source_seq j = any (is_origin source source_seq) j.entries

  unfoldable pub append_snapshot : SeqNo → S → ℕ → Journal P S → Journal P S
  append_snapshot seq state now_ms j = record j {
    entries = j.entries ++ snapshot seq state ∷ [];
    last_snapshot_ms = some now_ms;
  }

  unfoldable pub anchor_time_cadence : ℕ → Journal P S → Journal P S
  anchor_time_cadence now_ms j = elim j.last_snapshot_ms [
    | none ↦ record j { last_snapshot_ms = some now_ms }
    | some ms ↦ j
  ]

  unfoldable pub since_snapshot_ms : ℕ → Journal P S → Option ℕ
  since_snapshot_ms now j = elim j.last_snapshot_ms [ none ↦ none | some ms ↦ some (now - ms) ]

  -- The last snapshot entry: `iter().rev().find(…)`.
  abbrev pub last_snapshot_of : List (JournalEntry P S) → Option (SeqNo × S)
  last_snapshot_of [] = none
  last_snapshot_of (event seq ev origin ingest ∷ rest) = last_snapshot_of rest
  last_snapshot_of (snapshot seq state ∷ rest) = elim (last_snapshot_of rest) [
    | none ↦ some (seq, state)
    | some later ↦ some later
  ]

  unfoldable pub last_snapshot : Journal P S → Option (SeqNo × S)
  last_snapshot j = last_snapshot_of j.entries

  abbrev pub is_after : SeqNo → JournalEntry P S → Bool
  is_after seq (event s ev origin ingest) = is_before_genesis seq || ltb seq s
  is_after seq (snapshot s state) = false

  unfoldable pub after : SeqNo → Journal P S → List (JournalEntry P S)
  after seq j = retain (is_after seq) j.entries

  -- `filter_map(|entry| entry.as_event().cloned())`
  abbrev pub events_of : List (JournalEntry P S) → List (Event P)
  events_of [] = []
  events_of (event seq ev origin ingest ∷ rest) = ev ∷ events_of rest
  events_of (snapshot seq state ∷ rest) = events_of rest

  abbrev pub journaled_of : List (JournalEntry P S) → List (JournaledEvent P)
  journaled_of [] = []
  journaled_of (event seq ev origin ingest ∷ rest) =
      record { seq = seq; journaled = ev; origin = origin; ingest_seq = ingest } ∷ journaled_of rest
  journaled_of (snapshot seq state ∷ rest) = journaled_of rest

  -- The body of `load`, for a journal that is there.
  unfoldable pub replay : Journal P S → Replayed P S
  unfolding last_snapshot after
  replay j =
      let from : SeqNo = elim (last_snapshot j) [
        | none ↦ before_genesis
        | some (seq, state) ↦ seq
      ] in
      record {
        latest = last_snapshot j;
        tail = events_of (after from j);
        events = journaled_of j.entries;
      }

  -- `append` of a store, at one journal: each event takes the next arrival number, and its seq is
  -- answered.
  unfoldable pub append_events : List (Event P) → ℕ → Journal P S → Journal P S × List SeqNo × ℕ
  unfolding append_event
  append_events [] ingest j = (j, [], ingest)
  append_events (ev ∷ rest) ingest j =
      let (j', seq) = append_event ev ingest j in
      let (j'', seqs, ingest') = append_events rest (add_u64 ingest 1) j' in
      (j'', seq ∷ seqs, ingest')

  -- `append_catchup` of a store, at one journal: a fact that the journal already holds is skipped.
  unfoldable pub append_catchup :
      List (ScannedEvent P) → ℕ → Journal P S → Journal P S × List (Option SeqNo) × ℕ
  unfolding append_event_with_origin holds_origin
  append_catchup [] ingest j = (j, [], ingest)
  append_catchup (sc ∷ rest) ingest j =
      let origin = catch_up sc.journal sc.seq in
      let (j', seq) = append_event_with_origin sc.scanned origin ingest j in
      let (k, kseqs, kingest) = append_catchup rest ingest j in
      let (l, lseqs, lingest) = append_catchup rest (add_u64 ingest 1) j' in
      if holds_origin sc.journal sc.seq j
      then (k, none ∷ kseqs, kingest)
      else (l, some seq ∷ lseqs, lingest)
