-- ===== src/JournalDaow/Rows/RoundTrip.antt =====
-- What is stored by src/journal_daow.rs is read back as it was.
use trouper.Prelude.{
  ℕ, suc, ◌+◌, ◌<◌, ◌≡◌, refl, sym, ap, subst, ◌∙◌, Option, none, some, List, [], ◌∷◌, ◌++◌, map,
  append_assoc, append-nil, arith, u64_max, add_u64, length,
}
use trouper.Journal.{
  SeqNo, JournalEntry, event, snapshot, Journal, JournaledEvent, empty_journal,
  append_event_with_origin, append_snapshot, journaled_of, events_of, last_snapshot_of,
  last_snapshot, next_seq,
}
use trouper.Journal.Seqs.{Dense, IsDense}
use trouper.JournalDaow.Rows.{
  Codec, into_journaled, rebuild_events, rebuild_snapshot, rebuild_journal, row_of, text_of,
}

module _ {P : Type 0} where
  -- Sequences count up from `k`.
  abbrev pub Counted : ℕ → List (JournaledEvent P) → Type 0
  Counted k [] = Unit {0}
  Counted k (j ∷ js) = (j.seq ≡ k) × Counted (suc k) js

module _ {P S : Type 0} where
  abbrev pub entry_of : JournaledEvent P → JournalEntry P S
  entry_of j = event j.seq j.journaled j.origin j.ingest_seq

  abbrev pub snapshot_entry : Option (SeqNo × S) → List (JournalEntry P S)
  snapshot_entry none = []
  snapshot_entry (some (seq, state)) = snapshot seq state ∷ []

  journaled_of-entries :
      (js : List (JournaledEvent P)) (latest : Option (SeqNo × S))
      → (journaled_of (map entry_of js ++ snapshot_entry latest) ≡ js)
        × (last_snapshot_of (map entry_of js ++ snapshot_entry latest) ≡ latest)
  journaled_of-entries [] none = (refl, refl)
  journaled_of-entries [] (some latest) = (refl, refl)
  journaled_of-entries (j ∷ js) latest =
      let r = journaled_of-entries js latest in (ap (λ l. j ∷ l) r.0, r.1)

  Dense-entries :
      (k : ℕ) (js : List (JournaledEvent P)) (latest : Option (SeqNo × S))
      → Counted k js
      → Dense k (map entry_of js ++ snapshot_entry latest)
        × (length (events_of (map entry_of js ++ snapshot_entry latest)) ≡ length js)
  Dense-entries k [] none h = (tt, refl)
  Dense-entries k [] (some latest) h = (tt, refl)
  Dense-entries k (j ∷ js) latest h =
      let r = Dense-entries (suc k) js latest h.1 in ((h.0, r.0), ap suc r.1)

module _ {P S : Type 0} (c : Codec P S) where
  -- An event's row decodes into the event, its origin and its arrival number.
  pub into_journaled-row_of : (j : JournaledEvent P) → into_journaled c (row_of c j) ≡ some j
  unfolding into_journaled
  into_journaled-row_of j =
      rw (c.origin_from-text j.origin, into_journaled, c.payload_from-text j.journaled.payload) refl

  abbrev grown : Journal P S → List (JournalEntry P S) → ℕ → Journal P S
  grown journal entries count = record journal { entries = entries; event_count = count }

  grown_same :
      (journal : Journal P S) {es es' : List (JournalEntry P S)} {n n' : ℕ}
      → es ≡ es'
      → n ≡ n'
      → some (grown journal es n) ≡ some (grown journal es' n')
  grown_same journal {es' = es'} {n = n} e m =
      ap (λ l. some (grown journal l n)) e ∙ ap (λ k. some (grown journal es' k)) m

  rebuild_events-rows :
      (js : List (JournaledEvent P)) (journal : Journal P S)
      → Counted journal.event_count js
      → journal.event_count + length js < u64_max
      → rebuild_events c (map (row_of c) js) journal
        ≡ some
            (grown journal (journal.entries ++ map entry_of js) (journal.event_count + length js))
  unfolding rebuild_events append_event_with_origin next_seq
  rebuild_events-rows [] journal h f =
      grown_same journal (sym (append-nil journal.entries)) (omega arith)
  rebuild_events-rows (j ∷ js) journal h f =
      let bump : add_u64 journal.event_count 1 ≡ suc journal.event_count = omega (arith, f) in
      let journal' = (append_event_with_origin j.journaled j.origin j.ingest_seq journal).0 in
      rw (rebuild_events, into_journaled-row_of j)
        (rebuild_events-rows js journal' (subst (λ k. Counted k js) (sym bump) h.1)
            (omega (arith, f))
          ∙ grown_same journal
              (append_assoc journal.entries _ (map entry_of js)
                ∙ ap
                    (λ k.
                      journal.entries
                      ++ event k j.journaled j.origin j.ingest_seq ∷ map entry_of js)
                    (sym h.0))
              (omega (arith, bump)))

  abbrev pub rebuilt : List (JournaledEvent P) → Option (SeqNo × S) → Journal P S
  rebuilt js latest = record {
    entries = map entry_of js ++ snapshot_entry latest;
    event_count = length js;
    last_snapshot_ms = elim latest [ none ↦ none | some l ↦ some 0 ];
  }

  rebuild_snapshot-text :
      (latest : Option (SeqNo × S)) (js : List (JournaledEvent P))
      → rebuild_snapshot c (text_of c latest) (grown empty_journal (map entry_of js) (length js))
        ≡ some (rebuilt js latest)
  unfolding rebuild_snapshot append_snapshot
  rebuild_snapshot-text none js = grown_same empty_journal (sym (append-nil (map entry_of js))) refl
  rebuild_snapshot-text (some (seq, state)) js = rw (rebuild_snapshot, c.state_from-text state) refl

  rebuild_both :
      (js : List (JournaledEvent P)) (latest : Option (SeqNo × S))
      → Counted 0 js
      → length js < u64_max
      → rebuild_journal c (map (row_of c) js) (text_of c latest) ≡ some (rebuilt js latest)
  unfolding rebuild_journal
  rebuild_both js latest h f =
      rw (rebuild_journal, rebuild_events-rows js empty_journal h (omega (arith, f)))
        (ap (λ n. rebuild_snapshot c (text_of c latest) (grown empty_journal (map entry_of js) n))
            zero_add
          ∙ rebuild_snapshot-text latest js)
    where
      zero_add : 0 + length js ≡ length js
      zero_add = omega arith

  -- The rows of a dense list of events and the text of a snapshot rebuild a journal that presents these
  -- events and this snapshot.
  pub rebuild_journal-rows :
      (js : List (JournaledEvent P)) (latest : Option (SeqNo × S))
      → Counted 0 js
      → length js < u64_max
      → let journal = rebuilt js latest in
        (rebuild_journal c (map (row_of c) js) (text_of c latest) ≡ some journal)
        × (journaled_of journal.entries ≡ js)
        × (last_snapshot journal ≡ latest)
        × IsDense journal
  unfolding rebuild_journal last_snapshot
  rebuild_journal-rows js latest h f =
      let d = Dense-entries 0 js latest h in
      let r = journaled_of-entries js latest in
      (rebuild_both js latest h f, r.0, r.1, record { dense = d.0; counted = d.1; fits = f })
