-- ===== src/Journal/Append.antt =====
-- A batch append of src/journal.rs, at one journal.
use trouper.Prelude.{
  ℕ, zero, suc, ◌+◌, ◌<◌, ◌≡◌, refl, sym, ap, ◌∙◌, List, [], ◌∷◌, ◌++◌, append_assoc, append-nil,
  arith, u64_mod, u64_max, add_u64, length,
}
use trouper.Journal.{
  SeqNo, Event, EventOrigin, recorded, JournalEntry, event, snapshot, Journal, next_seq,
  append_event_with_origin, append_event, last_snapshot_of, last_snapshot, events_of, append_events,
}
use trouper.Journal.Seqs.{IsDense, append-IsDense, events_of-append}

-- `n`, `n + 1`, …, as many as asked.
abbrev pub count_from : ℕ → ℕ → List ℕ
count_from n zero = []
count_from n (suc k) = n ∷ count_from (n + 1) k

module _ {P S : Type 0} where
  last_snapshot_of-event :
      (xs : List (JournalEntry P S)) (seq : SeqNo) (ev : Event P) (o : EventOrigin) (ingest : ℕ)
      → last_snapshot_of (xs ++ event seq ev o ingest ∷ []) ≡ last_snapshot_of xs
  last_snapshot_of-event [] seq ev o ingest = refl
  last_snapshot_of-event (event s e' o' i' ∷ xs) seq ev o ingest =
      last_snapshot_of-event xs seq ev o ingest
  last_snapshot_of-event (snapshot s st ∷ xs) seq ev o ingest =
      rw (last_snapshot_of-event xs seq ev o ingest) refl

  -- A batch lands behind the journal in its own order, under consecutive sequences from the old
  -- event count, and draws as many arrival numbers; the journal stays dense and keeps its latest
  -- snapshot.
  pub append_events-IsDense :
      (evs : List (Event P)) (ingest : ℕ) (j : Journal P S)
      → IsDense j
      → j.event_count + length evs < u64_max
      → ingest + length evs < u64_mod
      → let r = append_events evs ingest j in
        IsDense r.0
        × (events_of r.0.entries ≡ events_of j.entries ++ evs)
        × (r.1 ≡ count_from j.event_count (length evs))
        × (r.0.event_count ≡ j.event_count + length evs)
        × (r.2 ≡ ingest + length evs)
        × (last_snapshot r.0 ≡ last_snapshot j)
  unfolding append_events last_snapshot append_event append_event_with_origin next_seq
  append_events-IsDense [] ingest j d f g =
      (d, sym (append-nil _), refl, omega arith, omega arith, refl)
  append_events-IsDense (ev ∷ evs) ingest j d f g =
      let d' = append-IsDense ev recorded ingest j d (omega arith) in
      let r =
        append_events-IsDense evs (add_u64 ingest 1) (append_event ev ingest j).0 d' (omega arith)
          (omega arith) in
      let here = events_of-append j.entries (event j.event_count ev recorded ingest ∷ []) in
      (
        r.0,
        r.1 ∙ ap (◌++ evs) here ∙ append_assoc (events_of j.entries) (ev ∷ []) evs,
        ap (◌∷◌ j.event_count) (r.2 ∙ ap (λ n. count_from n (length evs)) bump),
        r.3 ∙ omega arith,
        r.4 ∙ omega arith,
        r.5 ∙ last_snapshot_of-event j.entries j.event_count ev recorded ingest,
      )
    where
      bump : add_u64 j.event_count 1 ≡ j.event_count + 1
      bump = omega arith
