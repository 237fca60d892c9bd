-- ===== src/JournalDaow/Rows.antt =====
-- Rows of src/journal_daow.rs: a journal entry as it is stored, and what is read back. The JSON texts of
-- payloads, origins and states are serde's, and so is their round trip. Sequences and arrival numbers
-- stand in 64-bit columns; a cast there and back is the number itself.
pub mod RoundTrip
use trouper.Prelude.{
  ℕ, String, ◌≡◌, Bool, true, false, not, Option, none, some, List, [], ◌∷◌, if◌then◌else◌,
}
use trouper.Journal.{
  ActorPath, SeqNo, EventOrigin, recorded, catch_up, JournalEntry, event, snapshot, Journal,
  JournaledEvent, ScannedEvent, empty_journal, append_event_with_origin, append_snapshot,
}

-- What serde makes of the application's payloads and states, and of an origin. That a text is read back
-- as what was printed is promised for payloads and states without floating-point numbers.
pub record Codec (P S : Type 0) : Type 0 where
  pub payload_text : P → String
  pub payload_from : String → Option P
  pub payload_from-text : (p : P) → payload_from (payload_text p) ≡ some p
  pub state_text : S → String
  pub state_from : String → Option S
  pub state_from-text : (s : S) → state_from (state_text s) ≡ some s
  pub origin_text : EventOrigin → String
  pub origin_from : String → Option EventOrigin
  pub origin_from-text : (o : EventOrigin) → origin_from (origin_text o) ≡ some o

-- A row of the events table, whose key is the journal's path and `seq`.
pub record EventRow : Type 0 where
  pub seq : SeqNo
  pub kind : ℕ
  pub schema : String
  pub payload : String
  pub origin_json : String
  pub catchup_source : Option String
  pub catchup_seq : Option SeqNo
  pub ingest_seq : ℕ

abbrev pub kind_recorded : ℕ
kind_recorded = 0

abbrev pub kind_catchup : ℕ
kind_catchup = 1

abbrev pub kind_of : EventOrigin → ℕ
kind_of recorded = kind_recorded
kind_of (catch_up source source_seq) = kind_catchup

abbrev pub source_of : EventOrigin → Option String
source_of recorded = none
source_of (catch_up source source_seq) = some source

abbrev pub source_seq_of : EventOrigin → Option SeqNo
source_seq_of recorded = none
source_seq_of (catch_up source source_seq) = some source_seq

module _ {P S : Type 0} (c : Codec P S) where
  unfoldable pub serialize_event : JournalEntry P S → Option EventRow
  serialize_event (event seq ev origin ingest) = some (record {
    seq = seq;
    kind = kind_of origin;
    schema = ev.schema;
    payload = c.payload_text ev.payload;
    origin_json = c.origin_text origin;
    catchup_source = source_of origin;
    catchup_seq = source_seq_of origin;
    ingest_seq = ingest;
  })
  serialize_event (snapshot seq state) = none

  -- `StoredEventRow::into_journaled`: the columns that are read back.
  unfoldable pub into_journaled : EventRow → Option (JournaledEvent P)
  into_journaled row = elim (c.origin_from row.origin_json) [
    | none ↦ none
    | some origin ↦ elim (c.payload_from row.payload) [
      | none ↦ none
      | some payload ↦ some (record {
        seq = row.seq;
        journaled = record { schema = row.schema; payload = payload };
        origin = origin;
        ingest_seq = row.ingest_seq;
      })
    ]
  ]

  abbrev pub is_recorded : EventOrigin → Bool
  is_recorded recorded = true
  is_recorded (catch_up source source_seq) = false

  -- `StoredEventRow::into_scanned`
  unfoldable pub into_scanned : ActorPath → EventRow → Option (ScannedEvent P)
  into_scanned path row = elim (c.origin_from row.origin_json) [
    | none ↦ none
    | some origin ↦ if not (is_recorded origin) then none else elim (c.payload_from row.payload) [
      | none ↦ none
      | some payload ↦ some (record {
        journal = path;
        seq = row.seq;
        ingest_seq = row.ingest_seq;
        scanned = record { schema = row.schema; payload = payload };
      })
    ]
  ]

  -- The loop over the rows.
  unfoldable pub rebuild_events : List EventRow → Journal P S → Option (Journal P S)
  unfolding into_journaled append_event_with_origin
  rebuild_events [] journal = some journal
  rebuild_events (row ∷ rows) journal = elim (into_journaled row) [
    | none ↦ none
    | some j ↦
        rebuild_events rows (append_event_with_origin j.journaled j.origin j.ingest_seq journal).0
  ]

  unfoldable pub rebuild_snapshot : Option (SeqNo × String) → Journal P S → Option (Journal P S)
  unfolding append_snapshot
  rebuild_snapshot none journal = some journal
  rebuild_snapshot (some (seq, text)) journal = elim (c.state_from text) [
    | none ↦ none
    | some state ↦ some (append_snapshot seq state 0 journal)
  ]

  unfoldable pub rebuild_journal : List EventRow → Option (SeqNo × String) → Option (Journal P S)
  unfolding rebuild_events rebuild_snapshot
  rebuild_journal rows latest = elim (rebuild_events rows empty_journal) [
    | none ↦ none
    | some journal ↦ rebuild_snapshot latest journal
  ]

  -- The row of an event that the journal presents, and the text of a snapshot.
  abbrev pub row_of : JournaledEvent P → EventRow
  row_of j = record {
    seq = j.seq;
    kind = kind_of j.origin;
    schema = j.journaled.schema;
    payload = c.payload_text j.journaled.payload;
    origin_json = c.origin_text j.origin;
    catchup_source = source_of j.origin;
    catchup_seq = source_seq_of j.origin;
    ingest_seq = j.ingest_seq;
  }

  abbrev pub text_of : Option (SeqNo × S) → Option (SeqNo × String)
  text_of none = none
  text_of (some (seq, state)) = some (seq, c.state_text state)
