-- ===== src/JournalDaow/Flush.antt =====
-- The flush of src/journal_daow.rs: it captures what is pending (`collect_pending`), and writes it later
-- (`write_pending`), with appends in between. Whether the database fails is an argument, and a
-- failed transaction leaves it as it was. The order in which the hash map of buffers is visited
-- is an argument too.
use trouper.Prelude.{
  ℕ, String, Bool, true, false, ◌&&◌, Option, none, some, List, [], ◌∷◌, ◌++◌, str_eq, ◌==◌,
  if◌then◌else◌, length, take, drop, find,
}
use trouper.Journal.{ActorPath, SeqNo, JournalEntry, event, snapshot}
use trouper.JournalDaow.Rows.{Codec, EventRow, serialize_event}
use trouper.JournalDaow.Database.{Database}
use trouper.JournalDaow.Buffers.{PathBuffer, Shared, set_buffer}

pub record PendingFlush : Type 0 where
  pub path : ActorPath
  pub events : List EventRow
  pub latest : Option (SeqNo × String)
  pub captured_end : ℕ
  pub drop_when_durable : Bool

abbrev pub same_text : Option String → Option String → Bool
same_text none none = true
same_text none (some t) = false
same_text (some t) none = false
same_text (some t) (some u) = str_eq t u

abbrev pub same_number : Option ℕ → Option ℕ → Bool
same_number none none = true
same_number none (some n) = false
same_number (some m) none = false
same_number (some m) (some n) = m == n

unfoldable pub same_columns : EventRow → EventRow → Bool
same_columns stored row =
    stored.kind == row.kind
    && str_eq stored.schema row.schema
    && str_eq stored.payload row.payload
    && str_eq stored.origin_json row.origin_json
    && same_text stored.catchup_source row.catchup_source
    && same_number stored.catchup_seq row.catchup_seq
    && stored.ingest_seq == row.ingest_seq

module _ (d : Database) {P S : Type 0} (c : Codec P S) where
  open d use {Db, events_at, insert_event, replace_snapshot}

  -- The loop over a captured suffix: its rows, and the last of its snapshots.
  unfoldable pub collect_entries :
      List (JournalEntry P S) → Option (SeqNo × String) → List EventRow × Option (SeqNo × String)
  unfolding serialize_event
  collect_entries [] latest = ([], latest)
  collect_entries (event seq ev origin ingest ∷ rest) latest =
      let (rows, last) = collect_entries rest latest in
      elim (serialize_event c (event seq ev origin ingest)) [
        | none ↦ (rows, last)
        | some row ↦ (row ∷ rows, last)
      ]
  collect_entries (snapshot seq state ∷ rest) latest =
      collect_entries rest (some (seq, c.state_text state))

  unfoldable pub collect_buffer : ActorPath → PathBuffer P S → List PendingFlush
  unfolding collect_entries
  collect_buffer path buffer =
      let start = buffer.flushed_entry_count in
      let end = length buffer.journal.entries in
      let (rows, latest) = collect_entries (drop start (take end buffer.journal.entries)) none in
      if start == end
      then []
      else record {
        path = path;
        events = rows;
        latest = latest;
        captured_end = end;
        drop_when_durable = buffer.drop_when_durable;
      }
        ∷ []

  unfoldable pub collect_pending : List ActorPath → Shared d c → List PendingFlush
  unfolding collect_buffer
  collect_pending [] s = []
  collect_pending (path ∷ paths) s =
      (elim (s.journals path) [ none ↦ [] | some buffer ↦ collect_buffer path buffer ])
      ++ collect_pending paths s

  -- Whether the row that has the key is the same one.
  unfoldable pub verify_existing_event : ActorPath → EventRow → Db → Bool
  unfolding same_columns
  verify_existing_event path row db = elim (find (λ r. r.seq == row.seq) (events_at path db)) [
    | none ↦ false
    | some stored ↦ same_columns stored row
  ]

  unfoldable pub write_events : ActorPath → List EventRow → Db → Option Db
  unfolding verify_existing_event
  write_events path [] db = some db
  write_events path (row ∷ rows) db = elim (insert_event path row db) [
    | some db' ↦ write_events path rows db'
    | none ↦ elim (verify_existing_event path row db) [
      | true ↦ write_events path rows db
      | false ↦ none
    ]
  ]

  abbrev pub write_snapshot : ActorPath → Option (SeqNo × String) → Db → Db
  write_snapshot path none db = db
  write_snapshot path (some (seq, text)) db = replace_snapshot path seq text db

  unfoldable pub write_pending_statements : List PendingFlush → Db → Option Db
  unfolding write_events
  write_pending_statements [] db = some db
  write_pending_statements (batch ∷ pending) db = elim (write_events batch.path batch.events db) [
    | none ↦ none
    | some db' ↦ write_pending_statements pending (write_snapshot batch.path batch.latest db')
  ]

  -- What becomes of a buffer when a batch of it has been committed.
  unfoldable pub completed : PendingFlush → PathBuffer P S → Option (PathBuffer P S)
  completed batch buffer =
      let flushed = record buffer { flushed_entry_count = batch.captured_end } in
      if buffer.drop_when_durable && batch.drop_when_durable
      then if length buffer.journal.entries == batch.captured_end
        then none
        else some (record flushed { drop_when_durable = false })
      else some flushed

  unfoldable pub commit_flush : List PendingFlush → Shared d c → Shared d c
  unfolding completed
  commit_flush [] s = s
  commit_flush (batch ∷ pending) s = elim (s.journals batch.path) [
    | none ↦ commit_flush pending s
    | some buffer ↦ commit_flush pending (set_buffer d c batch.path (completed batch buffer) s)
  ]

  -- The state behind the write, and whether it succeeded.
  unfoldable pub write_pending : Bool → List PendingFlush → Shared d c → Shared d c × Bool
  unfolding write_pending_statements commit_flush
  write_pending fails [] s = (s, true)
  write_pending fails (batch ∷ batches) s =
      if fails then (s, false) else elim (write_pending_statements (batch ∷ batches) s.db) [
        | none ↦ (s, false)
        | some db ↦ (commit_flush (batch ∷ batches) (record s { db = db }), true)
      ]

  -- `flush`, and a tick of the writer.
  unfoldable pub flush_cycle : List ActorPath → Bool → Shared d c → Shared d c × Bool
  unfolding collect_pending write_pending
  flush_cycle order fails s = write_pending fails (collect_pending order s) s
