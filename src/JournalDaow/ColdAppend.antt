-- ===== src/JournalDaow/ColdAppend.antt =====
-- An append of src/journal_daow.rs to a path that has rows in the database and no buffer.
use trouper.Prelude.{
  ℕ, ◌≡◌, ◌≢◌, refl, sym, ap, subst, ◌∙◌, Bool, true, false, none, some, List, [], ◌∷◌, arith, ◌==◌,
  ==_iff, update_self, some-inj, add_u64, ◌&&◌,
}
use trouper.Journal.{ActorPath, SeqNo, Event, recorded, empty_journal, append_events}
use trouper.JournalDaow.Rows.{Codec, EventRow, serialize_event, row_of}
use trouper.JournalDaow.Database.{Database}
use trouper.JournalDaow.Buffers.{
  PathBuffer, Shared, set_buffer, new_buffer, mutable_buffer, buffer_append,
}
use trouper.JournalDaow.Flush.{
  same_columns, verify_existing_event, write_events, write_pending_statements, write_pending,
  collect_entries, collect_buffer, collect_pending, flush_cycle,
}

and-false : (b : Bool) → (b && false) ≡ false
and-false true = refl
and-false false = refl

module _ (d : Database) {P S : Type 0} (c : Codec P S) where
  open d use {Db, events_at, insert_event-refuses}

  abbrev first_buffer : Event P → ℕ → PathBuffer P S
  first_buffer ev ingest = record new_buffer {
    journal = (append_events (ev ∷ []) ingest empty_journal).0;
  }

  abbrev first_row : Event P → ℕ → EventRow
  first_row ev ingest =
      row_of c (record { seq = 0; journaled = ev; origin = recorded; ingest_seq = ingest })

  abbrev appended : ActorPath → Event P → Shared d c → Shared d c
  appended path ev s = record (set_buffer d c path (some (first_buffer ev s.ingest_seq)) s) {
    ingest_seq = add_u64 s.ingest_seq 1;
  }

  same_columns-arrival :
      (stored row : EventRow) → stored.ingest_seq ≢ row.ingest_seq → same_columns stored row ≡ false
  unfolding same_columns
  same_columns-arrival stored row n = rw differs (and-false _)
    where
      differs : (stored.ingest_seq == row.ingest_seq) ≡ false
      differs = ground (arith, n)

  -- The row conflicts with the stored one of the same sequence.
  write_events-conflict :
      (path : ActorPath) (stored row : EventRow) (rest rows : List EventRow) (db : Db)
      → events_at path db ≡ stored ∷ rest
      → stored.seq ≡ row.seq
      → stored.ingest_seq ≢ row.ingest_seq
      → write_events d c path (row ∷ rows) db ≡ none
  unfolding write_events verify_existing_event
  write_events-conflict path stored row rest rows db e s n =
      rw
        (
          write_events,
          insert_event-refuses path row db (rw (e, (==_iff stored.seq row.seq).1 s) refl),
          verify_existing_event,
          e,
          (==_iff stored.seq row.seq).1 s,
          same_columns-arrival stored row n,
        )
        refl

  flush_cycle-appended :
      (path : ActorPath) (ev : Event P) (s : Shared d c) (stored : EventRow) (rest : List EventRow)
      → events_at path s.db ≡ stored ∷ rest
      → stored.seq ≡ 0
      → stored.ingest_seq ≢ s.ingest_seq
      → (fails : Bool) (order : List ActorPath)
      → flush_cycle d c (path ∷ order) fails (appended path ev s) ≡ (appended path ev s, false)
  unfolding flush_cycle collect_pending collect_buffer collect_entries serialize_event write_pending
      write_pending_statements append_events
  flush_cycle-appended path ev s stored rest e z n true order =
      rw (flush_cycle, update_self path (some (first_buffer ev s.ingest_seq)) s.journals) refl
  flush_cycle-appended path ev s stored rest e z n false order =
      rw
        (
          flush_cycle,
          update_self path (some (first_buffer ev s.ingest_seq)) s.journals,
          write_pending_statements,
          write_events-conflict path stored (first_row ev s.ingest_seq) rest [] s.db e z n,
        )
        refl

  -- An append to a path without a buffer that has rows in the database starts a new journal at sequence 0.
  -- Its row conflicts with the first stored one, whose arrival number is another, so that a
  -- flush that comes to this path first does not succeed and changes nothing, even when the
  -- database does not fail.
  pub buffer_append-stuck :
      (path : ActorPath) (ev : Event P) (s s' : Shared d c) (seqs : List SeqNo) (stored : EventRow)
      (rest : List EventRow)
      → s.journals path ≡ none
      → events_at path s.db ≡ stored ∷ rest
      → stored.seq ≡ 0
      → stored.ingest_seq ≢ s.ingest_seq
      → buffer_append d c path (ev ∷ []) s ≡ some (s', seqs)
      → (fails : Bool) (order : List ActorPath)
      → flush_cycle d c (path ∷ order) fails s' ≡ (s', false)
  unfolding buffer_append mutable_buffer
  buffer_append-stuck path ev s s' seqs stored rest cold e z n at fails order =
      let computed : buffer_append d c path (ev ∷ []) s ≡ some (appended path ev s, 0 ∷ []) =
        rw (buffer_append, mutable_buffer, cold) refl in
      let same : appended path ev s ≡ s' =
        ap (λ (r : Shared d c × List SeqNo). r.0) (some-inj (sym computed ∙ at)) in
      subst (λ x. flush_cycle d c (path ∷ order) fails x ≡ (x, false)) same
        (flush_cycle-appended path ev s stored rest e z n fails order)
