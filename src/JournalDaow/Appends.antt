-- ===== src/JournalDaow/Appends.antt =====
-- Appends of src/journal_daow.rs, at any time, also between the capture and the write of a flush.
use trouper.Prelude.{
  ℕ, suc, ◌+◌, ◌≤◌, ◌<◌, ◌≡◌, refl, sym, ap, subst, ◌∙◌, inl, inr, some, List, [], ◌∷◌, ◌++◌,
  append-nil, arith, Option-cases, u64_mod, u64_max, length, All, update, some-inj, some≢none,
}
use trouper.Journal.{
  ActorPath, SeqNo, Event, JournalEntry, event, snapshot, append_snapshot, append_events, events_of,
  journaled_of, last_snapshot_of, last_snapshot,
}
use trouper.Journal.Seqs.{append_snapshot-IsDense}
use trouper.Journal.Append.{count_from, append_events-IsDense}
use trouper.JournalDaow.Rows.{Codec}
use trouper.JournalDaow.Database.{Database}
use trouper.JournalDaow.Buffers.{
  PathBuffer, Shared, set_buffer, buffer_append, buffer_append_snapshot,
}
use trouper.JournalDaow.Flush.{PendingFlush}
use trouper.JournalDaow.Ledger.{Ledger, Anchored, Holds, IsCaptured}
use trouper.JournalDaow.Entries.{Anchored-last, journaled_of-append, last_snapshot_of-append}
use trouper.JournalDaow.Capture.{CapturedAt}
use trouper.JournalDaow.Grow.{
  presented, with_events, with_snapshot, append_events-Grows, IsReady, ready_buffer,
  grown-IsBuffered, grown-IsCaptured,
}
use trouper.JournalDaow.Replace.{set_buffer-Holds, set_buffer-CapturedAt}

module _ (d : Database) {P S : Type 0} (c : Codec P S) where
  length-journaled_of :
      (xs : List (JournalEntry P S)) → length (journaled_of xs) ≡ length (events_of xs)
  length-journaled_of [] = refl
  length-journaled_of (event seq ev o i ∷ xs) = ap suc (length-journaled_of xs)
  length-journaled_of (snapshot seq st ∷ xs) = length-journaled_of xs

  -- An append to a live or a new path is accepted at once. Its events stand at the end of the path's
  -- ledger, under the next sequences, which are answered; every other ledger is as before, and so is
  -- what an ongoing flush has captured.
  pub buffer_append-Holds :
      (path : ActorPath) (evs : List (Event P)) (s : Shared d c) (ledgers : ActorPath → Ledger P S)
      (pending : List PendingFlush)
      → ((q : ActorPath) → Holds d c q s (ledgers q))
      → IsReady d c path s (ledgers path)
      → length (ledgers path).events + length evs < u64_max
      → s.ingest_seq + length evs < u64_mod
      → All (CapturedAt d c s) pending
      → (s' : Shared d c) × (buffer_append d c path evs s
          ≡ some (s', count_from (length (ledgers path).events) (length evs)))
        × ((q : ActorPath)
            → Holds d c q s' (update path (with_events s.ingest_seq evs (ledgers path)) ledgers q))
        × All (CapturedAt d c s') pending
        × (s'.ingest_seq ≡ s.ingest_seq + length evs)
  unfolding buffer_append
  buffer_append-Holds path evs s ledgers pending h ready f g captured =
      let l = ledgers path in
      let (b, e, a, i, was) = ready_buffer d c path s l (h path) ready in
      let counted : b.journal.event_count ≡ length l.events =
        sym
          (ap length (sym i.events) ∙ length-journaled_of b.journal.entries ∙ i.is_dense.counted) in
      let room : b.journal.event_count + length evs < u64_max = omega (arith, counted, f) in
      let r = append_events evs s.ingest_seq b.journal in
      let m = append_events-IsDense evs s.ingest_seq b.journal i.is_dense room g in
      let (more, at, shown, last, anchored) = append_events-Grows evs s.ingest_seq b.journal room in
      let b' : PathBuffer P S = record b { journal = r.0 } in
      let l' = with_events s.ingest_seq evs l in
      let i' =
        grown-IsBuffered d c path b r.0 s.db l l' more at
          (ap journaled_of at
            ∙ journaled_of-append b.journal.entries more
            ∙ ap (λ x. x ++ journaled_of more) i.events
            ∙ ap (λ x. l.events ++ x) (shown ∙ ap (λ n. presented n s.ingest_seq evs) counted))
          (m.5 ∙ i.latest) m.0
          (subst (Anchored 0) (sym at) (anchored 0 b.journal.entries i.anchored)) i in
      (
        record (set_buffer d c path (some b') s) { ingest_seq = r.2 },
        rw (buffer_append, e)
            (ap (λ seqs. some (record (set_buffer d c path (some b') s) { ingest_seq = r.2 }, seqs))
              (m.2 ∙ ap (λ n. count_from n (length evs)) counted)),
        set_buffer-Holds d c path b' r.2 s ledgers l' a i' h,
        set_buffer-CapturedAt d c path b' r.2 s pending a
            (λ b0 batch e0 captured0. elim was [
              | inl w ↦
                  grown-IsCaptured d c b r.0 batch more at
                    (subst (λ x. IsCaptured d c x batch) (some-inj (sym e0 ∙ w)) captured0)
              | inr w ↦ absurd (some≢none (sym e0 ∙ w))
            ])
            captured,
        m.4,
      )

  Anchored-snoc :
      (lo : ℕ) (xs : List (JournalEntry P S)) (seq : SeqNo) (st : S)
      → lo ≤ seq
      → ((old : SeqNo) (t : S) → last_snapshot_of xs ≡ some (old, t) → old ≤ seq)
      → Anchored lo xs
      → Anchored lo (xs ++ snapshot seq st ∷ [])
  Anchored-snoc lo [] seq st b f a = (b, tt)
  Anchored-snoc lo (event s ev o i ∷ xs) seq st b f a = Anchored-snoc lo xs seq st b f a
  Anchored-snoc lo (snapshot s u ∷ xs) seq st b f a = elim (Option-cases (last_snapshot_of xs)) [
    | inl n ↦ (
      a.0,
      Anchored-snoc s xs seq st (f s u (rw n refl)) (λ old t e. absurd (some≢none (sym e ∙ n))) a.1,
    )
    | inr ((s', u'), n) ↦ (
      a.0,
      Anchored-snoc s xs seq st (omega (arith, Anchored-last s xs s' u' a.1 n, f s' u' (rw n refl)))
          (λ old t e. f old t (rw e refl)) a.1,
    )
  ]

  -- A snapshot that is not anchored before the latest one is the path's latest from then on; everything
  -- else is as before.
  pub buffer_append_snapshot-Holds :
      (path : ActorPath) (seq : SeqNo) (st : S) (now : ℕ) (s : Shared d c)
      (ledgers : ActorPath → Ledger P S) (pending : List PendingFlush)
      → ((q : ActorPath) → Holds d c q s (ledgers q))
      → IsReady d c path s (ledgers path)
      → ((old : SeqNo) (t : S) → (ledgers path).latest ≡ some (old, t) → old ≤ seq)
      → All (CapturedAt d c s) pending
      → (s' : Shared d c) × (buffer_append_snapshot d c path seq st now s ≡ some s')
        × ((q : ActorPath)
            → Holds d c q s' (update path (with_snapshot seq st (ledgers path)) ledgers q))
        × All (CapturedAt d c s') pending
        × (s'.ingest_seq ≡ s.ingest_seq)
  unfolding buffer_append_snapshot append_snapshot last_snapshot
  buffer_append_snapshot-Holds path seq st now s ledgers pending h ready newer captured =
      let l = ledgers path in
      let (b, e, a, i, was) = ready_buffer d c path s l (h path) ready in
      let j' = append_snapshot seq st now b.journal in
      let b' : PathBuffer P S = record b { journal = j' } in
      let more : List (JournalEntry P S) = snapshot seq st ∷ [] in
      let l' = with_snapshot seq st l in
      let i' =
        grown-IsBuffered d c path b j' s.db l l' more refl
          (journaled_of-append b.journal.entries more ∙ append-nil _ ∙ i.events)
          (last_snapshot_of-append b.journal.entries more)
          (append_snapshot-IsDense seq st now b.journal i.is_dense)
          (Anchored-snoc 0 b.journal.entries seq st (omega arith)
            (λ old t f. newer old t (sym i.latest ∙ f)) i.anchored)
          i in
      (
        set_buffer d c path (some b') s,
        rw (buffer_append_snapshot, e) refl,
        set_buffer-Holds d c path b' s.ingest_seq s ledgers l' a i' h,
        set_buffer-CapturedAt d c path b' s.ingest_seq s pending a
            (λ b0 batch e0 captured0. elim was [
              | inl w ↦
                  grown-IsCaptured d c b j' batch more refl
                    (subst (λ x. IsCaptured d c x batch) (some-inj (sym e0 ∙ w)) captured0)
              | inr w ↦ absurd (some≢none (sym e0 ∙ w))
            ])
            captured,
        refl,
      )
