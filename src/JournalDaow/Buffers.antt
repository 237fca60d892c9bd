-- ===== src/JournalDaow/Buffers.antt =====
-- The buffers of src/journal_daow.rs and the appends, which touch nothing else.
use trouper.Prelude.{
  ℕ, ◌+◌, Bool, true, false, Option, none, some, List, [], ◌∷◌, map, ltb, if◌then◌else◌, add_u64,
  length, retain, update,
}
use trouper.Journal.{
  ActorPath, SeqNo, Event, Journal, JournaledEvent, Replayed, empty_journal, append_snapshot,
  append_events, journaled_of, last_snapshot,
}
use trouper.JournalDaow.Rows.{Codec}
use trouper.JournalDaow.Database.{Database}

pub record PathBuffer (P S : Type 0) : Type 0 where
  pub journal : Journal P S
  pub flushed_entry_count : ℕ
  pub drop_when_durable : Bool
  pub activation_in_progress : Bool

pub data Loaded (P S : Type 0) : Type 0 where
  unreadable : Loaded P S
  answered : Option (Replayed P S) → Loaded P S

module _ {P S : Type 0} where
  abbrev pub new_buffer : PathBuffer P S
  new_buffer = record {
    journal = empty_journal;
    flushed_entry_count = 0;
    drop_when_durable = false;
    activation_in_progress = false;
  }

  abbrev pub activating : PathBuffer P S
  activating = record new_buffer { activation_in_progress = true }

  abbrev pub durable : Journal P S → PathBuffer P S
  durable journal = record {
    journal = journal;
    flushed_entry_count = length journal.entries;
    drop_when_durable = false;
    activation_in_progress = false;
  }

  -- The events behind the latest snapshot.
  abbrev pub tail_of : Option (SeqNo × S) → List (JournaledEvent P) → List (Event P)
  tail_of none events = map (λ j. j.journaled) events
  tail_of (some (seq, state)) events = map (λ j. j.journaled) (retain (λ j. ltb seq j.seq) events)

  abbrev pub replay_of : List (JournaledEvent P) → Option (SeqNo × S) → Option (Replayed P S)
  replay_of [] none = none
  replay_of [] (some latest) =
      some (record { latest = some latest; tail = tail_of (some latest) []; events = [] })
  replay_of (j ∷ js) latest =
      some (record { latest = latest; tail = tail_of latest (j ∷ js); events = j ∷ js })

  unfoldable pub build_replay : Journal P S → Option (Replayed P S)
  unfolding last_snapshot
  build_replay journal = replay_of (journaled_of journal.entries) (last_snapshot journal)

module _ (d : Database) {P S : Type 0} (c : Codec P S) where
  open d use {Db, max_ingest}

  pub record Shared : Type 0 where
    pub journals : ActorPath → Option (PathBuffer P S)
    pub db : Db
    pub ingest_seq : ℕ

  abbrev pub set_buffer : ActorPath → Option (PathBuffer P S) → Shared → Shared
  set_buffer path buffer s = record s { journals = update path buffer s.journals }

  -- A fresh store over a database: its buffers are empty.
  unfoldable pub build : Db → Shared
  build db = record {
    journals = λ path. none;
    db = db;
    ingest_seq = elim (max_ingest db) [ none ↦ 0 + 1 | some m ↦ add_u64 m 1 ];
  }

  unfoldable pub mutable_buffer : ActorPath → Shared → Option (PathBuffer P S)
  mutable_buffer path s = elim (s.journals path) [
    | none ↦ some new_buffer
    | some buffer ↦ if buffer.activation_in_progress then none else some buffer
  ]

  unfoldable pub buffer_append : ActorPath → List (Event P) → Shared → Option (Shared × List SeqNo)
  unfolding mutable_buffer append_events
  buffer_append path events s = elim (mutable_buffer path s) [
    | none ↦ none
    | some buffer ↦
        let (journal, seqs, ingest) = append_events events s.ingest_seq buffer.journal in
        some (
          record (set_buffer path (some (record buffer { journal = journal })) s) {
            ingest_seq = ingest;
          },
          seqs,
        )
  ]

  unfoldable pub buffer_append_snapshot : ActorPath → SeqNo → S → ℕ → Shared → Option Shared
  unfolding mutable_buffer append_snapshot
  buffer_append_snapshot path seq state now_ms s = elim (mutable_buffer path s) [
    | none ↦ none
    | some buffer ↦ some (
        set_buffer path
          (some (record buffer { journal = append_snapshot seq state now_ms buffer.journal })) s)
  ]
