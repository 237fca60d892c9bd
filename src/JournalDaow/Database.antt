-- ===== src/JournalDaow/Database.antt =====
-- What src/journal_daow.rs asks of SQLite: the statements that it runs on its two tables, with the
-- documented behaviour of a primary key, of `INSERT OR REPLACE`, of `ORDER BY` and of `DELETE`.
use trouper.Prelude.{
  ℕ, ◌≤◌, ◌<◌, String, ◌≡◌, ◌≢◌, true, Option, none, some, List, [], ◌∷◌, ◌++◌, ◌==◌, any, All,
}
use trouper.Journal.{ActorPath, SeqNo}
use trouper.JournalDaow.Rows.{EventRow}

pub record Database : Type 1 where
  pub Db : Type 0
  -- One path's event rows, ascending by sequence.
  pub events_at : ActorPath → Db → List EventRow
  -- One path's snapshot with the highest sequence.
  pub snapshot_at : ActorPath → Db → Option (SeqNo × String)
  -- An insert, or `none` when the key is there already.
  pub insert_event : ActorPath → EventRow → Db → Option Db
  pub replace_snapshot : ActorPath → SeqNo → String → Db → Db
  -- Both deletes of a purge.
  pub delete_journal : ActorPath → Db → Db
  -- `MAX(ingest_seq)` over all rows.
  pub max_ingest : Db → Option ℕ
  -- A row behind all of its journal's is accepted, and comes last.
  pub insert_event-accepts :
      (path : ActorPath) (row : EventRow) (db : Db)
      → All (λ r. r.seq < row.seq) (events_at path db)
      → (db' : Db) × (insert_event path row db ≡ some db')
        × (events_at path db' ≡ events_at path db ++ row ∷ [])
        × (snapshot_at path db' ≡ snapshot_at path db)
        × ((q : ActorPath)
            → q ≢ path
            → (events_at q db' ≡ events_at q db) × (snapshot_at q db' ≡ snapshot_at q db))
  -- A second row under one key is refused.
  pub insert_event-refuses :
      (path : ActorPath) (row : EventRow) (db : Db)
      → any (λ r. r.seq == row.seq) (events_at path db) ≡ true
      → insert_event path row db ≡ none
  -- A snapshot at or behind the latest one is the latest.
  pub replace_snapshot-latest :
      (path : ActorPath) (seq : SeqNo) (text : String) (db : Db)
      → ((old : SeqNo) (t : String) → snapshot_at path db ≡ some (old, t) → old ≤ seq)
      → (snapshot_at path (replace_snapshot path seq text db) ≡ some (seq, text))
        × (events_at path (replace_snapshot path seq text db) ≡ events_at path db)
        × ((q : ActorPath)
            → q ≢ path
            → (events_at q (replace_snapshot path seq text db) ≡ events_at q db)
              × (snapshot_at q (replace_snapshot path seq text db) ≡ snapshot_at q db))
  pub delete_journal-forgets :
      (path : ActorPath) (db : Db)
      → (events_at path (delete_journal path db) ≡ [])
        × (snapshot_at path (delete_journal path db) ≡ none)
        × ((q : ActorPath)
            → q ≢ path
            → (events_at q (delete_journal path db) ≡ events_at q db)
              × (snapshot_at q (delete_journal path db) ≡ snapshot_at q db))
