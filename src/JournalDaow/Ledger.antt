-- ===== src/JournalDaow/Ledger.antt =====
-- What the store of src/journal_daow.rs holds of one path, wherever it is: in a buffer, in the database, or
-- in both. A ledger is the abstract view, the acknowledged events and the latest snapshot.
use trouper.Prelude.{
  ℕ, ◌≤◌, ◌<◌, ◌≡◌, false, Option, none, some, List, [], ◌∷◌, map, u64_max, length, take, drop,
}
use trouper.Journal.{
  ActorPath, SeqNo, JournalEntry, event, snapshot, JournaledEvent, Replayed, journaled_of,
  last_snapshot, last_snapshot_of,
}
use trouper.Journal.Seqs.{IsDense}
use trouper.JournalDaow.Rows.{Codec, row_of, text_of}
use trouper.JournalDaow.Rows.RoundTrip.{Counted}
use trouper.JournalDaow.Database.{Database}
use trouper.JournalDaow.Buffers.{activating, PathBuffer, Shared, replay_of}
use trouper.JournalDaow.Flush.{PendingFlush}

pub record Ledger (P S : Type 0) : Type 0 where
  pub events : List (JournaledEvent P)
  pub latest : Option (SeqNo × S)

module _ {P S : Type 0} where
  -- The anchors of the snapshots do not go down, from `lo` on.
  abbrev pub Anchored : ℕ → List (JournalEntry P S) → Type 0
  Anchored lo [] = Unit {0}
  Anchored lo (event seq ev o i ∷ rest) = Anchored lo rest
  Anchored lo (snapshot seq state ∷ rest) = (lo ≤ seq) × Anchored seq rest

  pub record IsLedger (l : Ledger P S) : Type 0 where
    pub counted : Counted 0 l.events
    pub fits : length l.events < u64_max

  -- What a load is to answer.
  abbrev pub answer : Ledger P S → Option (Replayed P S)
  answer l = replay_of l.events l.latest

module _ (d : Database) {P S : Type 0} (c : Codec P S) where
  open d use {Db, events_at, snapshot_at}

  -- The database has all of it.
  pub record IsStored (path : ActorPath) (db : Db) (l : Ledger P S) : Type 0 where
    pub rows : events_at path db ≡ map (row_of c) l.events
    pub text : snapshot_at path db ≡ text_of c l.latest

  -- The database has the first `k` entries of the journal.
  pub record HasPrefix (path : ActorPath) (k : ℕ) (entries : List (JournalEntry P S)) (db : Db)
      : Type 0 where
    pub rows : events_at path db ≡ map (row_of c) (journaled_of (take k entries))
    pub text : snapshot_at path db ≡ text_of c (last_snapshot_of (take k entries))

  -- The buffer has all of it, and the database the flushed prefix.
  pub record IsBuffered (path : ActorPath) (b : PathBuffer P S) (db : Db) (l : Ledger P S)
      : Type 0 where
    pub events : journaled_of b.journal.entries ≡ l.events
    pub latest : last_snapshot b.journal ≡ l.latest
    pub is_dense : IsDense b.journal
    pub anchored : Anchored 0 b.journal.entries
    pub flushed : b.flushed_entry_count ≤ length b.journal.entries
    pub prefix : HasPrefix path b.flushed_entry_count b.journal.entries db

  pub data Holds (path : ActorPath) (s : Shared d c) (l : Ledger P S) : Type 0 where
    cold : s.journals path ≡ none → IsStored path s.db l → Holds path s l
    waking : s.journals path ≡ some activating → IsStored path s.db l → Holds path s l
    warm :
        (b : PathBuffer P S)
        → s.journals path ≡ some b
        → b.activation_in_progress ≡ false
        → IsBuffered path b s.db l
        → Holds path s l

  -- A batch that was captured of a buffer, which may have grown since.
  pub record IsCaptured (b : PathBuffer P S) (batch : PendingFlush) : Type 0 where
    pub from : b.flushed_entry_count ≤ batch.captured_end
    pub until : batch.captured_end ≤ length b.journal.entries
    pub rows :
        batch.events
        ≡ map
            (row_of c)
            (journaled_of (drop b.flushed_entry_count (take batch.captured_end b.journal.entries)))
    pub text :
        batch.latest
        ≡ text_of c (
            last_snapshot_of
              (drop b.flushed_entry_count (take batch.captured_end b.journal.entries)))
