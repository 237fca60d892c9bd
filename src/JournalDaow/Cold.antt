-- ===== src/JournalDaow/Cold.antt =====
-- Passivation, cold loads, purges and catch-ups of src/journal_daow.rs. Whether the database fails is an
-- argument.
use trouper.Prelude.{
  String, Bool, true, false, not, ◌&&◌, Option, none, some, List, [], ◌∷◌, ◌==◌, if◌then◌else◌,
  add_u64, any,
}
use trouper.Journal.{
  ActorPath, SeqNo, catch_up, ScannedEvent, append_event_with_origin, holds_origin,
}
use trouper.JournalDaow.Rows.{Codec, EventRow, kind_catchup, rebuild_journal}
use trouper.JournalDaow.Database.{Database}
use trouper.JournalDaow.Buffers.{
  PathBuffer, Loaded, unreadable, answered, activating, durable, build_replay, Shared, set_buffer,
  mutable_buffer,
}
use trouper.JournalDaow.Flush.{same_text, same_number, collect_pending, write_pending}

abbrev pub is_nothing : List EventRow → Option (SeqNo × String) → Bool
is_nothing [] none = true
is_nothing [] (some latest) = false
is_nothing (row ∷ rows) latest = false

module _ {P S : Type 0} where
  abbrev pub answer_at : Option (PathBuffer P S) → Loaded P S
  answer_at none = answered none
  answer_at (some buffer) = answered (build_replay buffer.journal)

module _ (d : Database) {P S : Type 0} (c : Codec P S) where
  open d use {Db, events_at, snapshot_at, delete_journal}

  -- What `passivated` does before it writes.
  unfoldable pub release_when_durable : ActorPath → Shared d c → Shared d c
  release_when_durable path s = elim (s.journals path) [
    | none ↦ s
    | some buffer ↦ set_buffer d c path (some (record buffer { drop_when_durable = true })) s
  ]

  -- A passivation that no append comes into; Runs has its steps one by one, too.
  unfoldable pub passivated : ActorPath → Bool → Shared d c → Shared d c × Bool
  unfolding collect_pending release_when_durable write_pending
  passivated path fails s = elim (collect_pending d c (path ∷ []) s) [
    | [] ↦ (set_buffer d c path none s, true)
    | batch ∷ pending ↦ write_pending d c fails (batch ∷ pending) (release_when_durable path s)
  ]

  -- A cold path's buffer, built from its rows; a failure leaves the placeholder. `false` for no buffer
  -- stored or built.
  unfoldable pub seed_buffer : ActorPath → Bool → Shared d c → Shared d c × Option Bool
  unfolding rebuild_journal
  seed_buffer path fails s =
      let s' = set_buffer d c path (some activating) s in
      if fails
      then (s', none)
      else if is_nothing (events_at path s.db) (snapshot_at path s.db)
      then (set_buffer d c path none s, some false)
      else elim (rebuild_journal c (events_at path s.db) (snapshot_at path s.db)) [
        | none ↦ (s', none)
        | some journal ↦ (set_buffer d c path (some (durable journal)) s, some true)
      ]

  abbrev pub load_seeded : ActorPath → Shared d c × Option Bool → Shared d c × Loaded P S
  load_seeded path (s, none) = (s, unreadable)
  load_seeded path (s, some seeded) = (s, answer_at (s.journals path))

  unfoldable pub load : ActorPath → Bool → Shared d c → Shared d c × Loaded P S
  unfolding seed_buffer build_replay
  load path fails s = elim (s.journals path) [
    | none ↦ load_seeded path (seed_buffer path fails s)
    | some buffer ↦
        if not buffer.activation_in_progress
        then (
          set_buffer d c path (some (record buffer { drop_when_durable = false })) s,
          answered (build_replay buffer.journal),
        )
        else load_seeded path (seed_buffer path fails s)
  ]

  -- A purge in its two steps: the rows, and then, if that succeeded, the buffer.
  abbrev pub purge_rows : ActorPath → Bool → Shared d c → Shared d c × Bool
  purge_rows path fails s =
      if fails then (s, false) else (record s { db = delete_journal path s.db }, true)

  abbrev pub forget_buffer : ActorPath → Shared d c × Bool → Shared d c × Bool
  forget_buffer path (s, done) = if done then (set_buffer d c path none s, true) else (s, false)

  -- A purge that no append comes into.
  unfoldable pub purge : ActorPath → Bool → Shared d c → Shared d c × Bool
  purge path fails s = forget_buffer path (purge_rows path fails s)

  -- Whether the database holds a catch-up row of that origin.
  unfoldable pub db_holds_origin : ActorPath → ActorPath → SeqNo → Db → Bool
  db_holds_origin path source source_seq db =
      any
        (λ r.
          r.kind == kind_catchup
          && same_text r.catchup_source (some source)
          && same_number r.catchup_seq (some source_seq))
        (events_at path db)

  -- The loop of `append_catchup`; `none` when an append is rejected or the database cannot be read.
  unfoldable pub append_catchup :
      ActorPath
      → Bool
      → List (ScannedEvent P)
      → Shared d c
      → Shared d c × Option (List (Option SeqNo))
  unfolding mutable_buffer db_holds_origin holds_origin append_event_with_origin
  append_catchup path fails [] s = (s, some [])
  append_catchup path fails (sc ∷ scs) s = elim (mutable_buffer d c path s) [
    | none ↦ (s, none)
    | some buffer ↦
        let there = set_buffer d c path (some buffer) s in
        let skipped = append_catchup path fails scs there in
        let (journal, seq) =
          append_event_with_origin sc.scanned (catch_up sc.journal sc.seq) s.ingest_seq
            buffer.journal in
        let taken =
          append_catchup path fails scs
            (record (set_buffer d c path (some (record buffer { journal = journal })) s) {
              ingest_seq = add_u64 s.ingest_seq 1;
            }) in
        if holds_origin sc.journal sc.seq buffer.journal
        then (skipped.0, elim skipped.1 [ none ↦ none | some seqs ↦ some (none ∷ seqs) ])
        else if fails
        then (there, none)
        else if db_holds_origin path sc.journal sc.seq s.db
        then (skipped.0, elim skipped.1 [ none ↦ none | some seqs ↦ some (none ∷ seqs) ])
        else (taken.0, elim taken.1 [ none ↦ none | some seqs ↦ some (some seq ∷ seqs) ])
  ]
