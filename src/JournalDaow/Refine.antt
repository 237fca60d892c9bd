-- ===== src/JournalDaow/Refine.antt =====
-- A flush of src/journal_daow.rs changes where a path's entries are, and not which: whatever the outcome of its
-- transaction, each path's ledger is held as before.
use trouper.Prelude.{
  ◌≤◌, ◌≡◌, refl, sym, ap, subst, ◌∙◌, ◌⊎◌, inl, inr, Bool, true, false, ◌&&◌, Option, none, some,
  List, [], ◌∷◌, ◌++◌, map, arith, str_eq, eq_iff, ◌==◌, Bool-cases, Option-cases, length, take,
  drop, All, contains, update_self, update_other, take-split, some-inj, some≢none, NoDup,
}
use trouper.Journal.{
  ActorPath, JournalEntry, Journal, journaled_of, last_snapshot_of, last_snapshot,
}
use trouper.Journal.Seqs.{IsDense}
use trouper.JournalDaow.Rows.{Codec, row_of, text_of}
use trouper.JournalDaow.Database.{Database}
use trouper.JournalDaow.Buffers.{PathBuffer, Shared, set_buffer}
use trouper.JournalDaow.Flush.{PendingFlush, completed, commit_flush, write_pending}
use trouper.JournalDaow.Ledger.{
  Ledger, Anchored, HasPrefix, IsBuffered, Holds, cold, waking, warm, IsCaptured,
}
use trouper.JournalDaow.Entries.{journaled_of-append, last_snapshot_of-append, or_older}
use trouper.JournalDaow.Write.{
  Fits, paths_of, batch_for, batch_for-absent, Written, Same, write_pending_statements-Written,
  map_rows-append,
}
use trouper.JournalDaow.Capture.{CapturedAt, CapturedAt-Fits, Holds-warm, IsBuffered-IsStored}

module _ (d : Database) {P S : Type 0} (c : Codec P S) where
  open d use {Db}

  abbrev pub flushed_to : PendingFlush → PathBuffer P S → PathBuffer P S
  flushed_to batch b = record b { flushed_entry_count = batch.captured_end }

  -- What a commit makes of a buffer: it is dropped when nothing is left to flush.
  completed-cases :
      (batch : PendingFlush) (b : PathBuffer P S)
      → ((completed d c batch b ≡ none) × (length b.journal.entries ≡ batch.captured_end))
        ⊎ ((b' : PathBuffer P S) × (completed d c batch b ≡ some b')
            × (b'.journal ≡ b.journal)
            × (b'.flushed_entry_count ≡ batch.captured_end)
            × (b'.activation_in_progress ≡ b.activation_in_progress))
  unfolding completed
  completed-cases batch b = elim (Bool-cases (b.drop_when_durable && batch.drop_when_durable)) [
    | inl e ↦ elim (Bool-cases (length b.journal.entries == batch.captured_end)) [
      | inl f ↦ inl (rw (completed, e, f) refl, ground (arith, f))
      | inr f ↦ inr (
        record (flushed_to batch b) { drop_when_durable = false },
        rw (completed, e, f) refl,
        refl,
        refl,
        refl,
      )
    ]
    | inr e ↦ inr (flushed_to batch b, rw (completed, e) refl, refl, refl, refl)
  ]

  abbrev pub behind : Option PendingFlush → Option (PathBuffer P S) → Option (PathBuffer P S)
  behind none o = o
  behind (some batch) none = none
  behind (some batch) (some b) = completed d c batch b

  batch_for-later :
      (batch : PendingFlush) (pending : List PendingFlush) (q : ActorPath)
      → NoDup (paths_of (batch ∷ pending))
      → str_eq batch.path q ≡ true
      → batch_for q pending ≡ none
  batch_for-later batch pending q n g =
      batch_for-absent q pending
        (subst (λ x. contains (paths_of pending) x ≡ false) ((eq_iff batch.path q).0 g) n.0)

  pub commit_flush-at :
      (pending : List PendingFlush) (s : Shared d c) (q : ActorPath)
      → NoDup (paths_of pending)
      → ((commit_flush d c pending s).journals q ≡ behind (batch_for q pending) (s.journals q))
        × ((commit_flush d c pending s).db ≡ s.db)
  unfolding commit_flush
  commit_flush-at [] s q n = (refl, refl)
  commit_flush-at (batch ∷ pending) s q n = elim (Option-cases (s.journals batch.path)) [
    | inl e ↦
        let r = commit_flush-at pending s q n.1 in
        rw (commit_flush, e)
          (elim (Bool-cases (str_eq batch.path q)) [
            | inl g ↦
                let at : s.journals q ≡ none =
                  ap s.journals (sym ((eq_iff batch.path q).0 g)) ∙ e in
                rw g (
                  r.0
                      ∙ ap (λ o. behind o (s.journals q)) (batch_for-later batch pending q n g)
                      ∙ at
                      ∙ sym (ap (behind (some batch)) at),
                  r.1,
                )
            | inr g ↦ rw g r
          ])
    | inr (b, e) ↦
        let s2 = set_buffer d c batch.path (completed d c batch b) s in
        let r = commit_flush-at pending s2 q n.1 in
        rw (commit_flush, e)
          (elim (Bool-cases (str_eq batch.path q)) [
            | inl g ↦
                let p = (eq_iff batch.path q).0 g in
                rw g (
                  r.0
                      ∙ ap (λ o. behind o (s2.journals q)) (batch_for-later batch pending q n g)
                      ∙ ap s2.journals (sym p)
                      ∙ update_self batch.path (completed d c batch b) s.journals
                      ∙ sym (ap (behind (some batch)) (ap s.journals (sym p) ∙ e)),
                  r.1,
                )
            | inr g ↦ rw g (
              r.0
                  ∙ ap (behind (batch_for q pending)) (
                      update_other batch.path q (completed d c batch b) s.journals
                        (λ same. ground (arith, g, same, eq_iff batch.path q))),
              r.1,
            )
          ])
  ]

  text-append :
      (xs ys : List (JournalEntry P S))
      → or_older (text_of c (last_snapshot_of ys)) (text_of c (last_snapshot_of xs))
        ≡ text_of c (last_snapshot_of (xs ++ ys))
  text-append xs ys = elim (Option-cases (last_snapshot_of ys)) [
    | inl e ↦ rw (last_snapshot_of-append xs ys, e) refl
    | inr (x, e) ↦ rw (last_snapshot_of-append xs ys, e) refl
  ]

  -- The prefix that a committed batch leaves.
  pub Written-HasPrefix :
      (path : ActorPath) (b : PathBuffer P S) (batch : PendingFlush) (db db' : Db)
      → IsCaptured d c b batch
      → HasPrefix d c path b.flushed_entry_count b.journal.entries db
      → Written d c path (some batch) db db'
      → HasPrefix d c path batch.captured_end b.journal.entries db'
  Written-HasPrefix path b batch db db' captured h w =
      let entries = b.journal.entries in
      let k = b.flushed_entry_count in
      let n = batch.captured_end in
      let split = take-split k n entries captured.from in
      record {
        rows =
            w.0
            ∙ ap (λ l. l ++ batch.events) h.rows
            ∙ ap (λ l. map (row_of c) (journaled_of (take k entries)) ++ l) captured.rows
            ∙ sym (
                map_rows-append d c (journaled_of (take k entries))
                  (journaled_of (drop k (take n entries))))
            ∙ ap (map (row_of c)) (
                sym (journaled_of-append (take k entries) (drop k (take n entries)))
                ∙ ap journaled_of split);
        text =
            w.1
            ∙ ap (or_older batch.latest) h.text
            ∙ ap (λ o. or_older o (text_of c (last_snapshot_of (take k entries)))) captured.text
            ∙ text-append (take k entries) (drop k (take n entries))
            ∙ ap (λ l. text_of c (last_snapshot_of l)) split;
      }

  pub Holds-Same :
      (q : ActorPath) (s s' : Shared d c) (l : Ledger P S)
      → s'.journals q ≡ s.journals q
      → Same d c q s.db s'.db
      → Holds d c q s l
      → Holds d c q s' l
  Holds-Same q s s' l e w (cold f h) =
      cold (e ∙ f) (record { rows = w.0 ∙ h.rows; text = w.1 ∙ h.text })
  Holds-Same q s s' l e w (waking f h) =
      waking (e ∙ f) (record { rows = w.0 ∙ h.rows; text = w.1 ∙ h.text })
  Holds-Same q s s' l e w (warm b f a h) = warm b (e ∙ f) a (record {
    events = h.events;
    latest = h.latest;
    is_dense = h.is_dense;
    anchored = h.anchored;
    flushed = h.flushed;
    prefix = record { rows = w.0 ∙ h.prefix.rows; text = w.1 ∙ h.prefix.text };
  })

  CapturedAt-find :
      (s : Shared d c) (pending : List PendingFlush) (q : ActorPath) (batch : PendingFlush)
      → All (CapturedAt d c s) pending
      → batch_for q pending ≡ some batch
      → CapturedAt d c s batch × (batch.path ≡ q)
  CapturedAt-find s [] q batch h e = absurd (some≢none (sym e))
  CapturedAt-find s (b ∷ pending) q batch h e = elim (Bool-cases (str_eq b.path q)) [
    | inl g ↦
        let same : b ≡ batch = some-inj (rw g at e) in
        (
          subst (CapturedAt d c s) same h.0,
          ap (λ (x : PendingFlush). x.path) (sym same) ∙ (eq_iff b.path q).0 g,
        )
    | inr g ↦ CapturedAt-find s pending q batch h.1 (rw g at e)
  ]

  pub IsBuffered-Same :
      (path : ActorPath) (b b' : PathBuffer P S) (db : Db) (l : Ledger P S)
      → b'.journal ≡ b.journal
      → b'.flushed_entry_count ≡ b.flushed_entry_count
      → IsBuffered d c path b db l
      → IsBuffered d c path b' db l
  IsBuffered-Same path b b' db l e k h = record {
    events = ap (λ (j : Journal P S). journaled_of j.entries) e ∙ h.events;
    latest = ap last_snapshot e ∙ h.latest;
    is_dense = subst IsDense (sym e) h.is_dense;
    anchored = subst (λ (j : Journal P S). Anchored 0 j.entries) (sym e) h.anchored;
    flushed =
        subst (λ (j : Journal P S). b'.flushed_entry_count ≤ length j.entries) (sym e)
          (omega (arith, k, h.flushed));
    prefix =
        subst (λ (j : Journal P S). HasPrefix d c path b'.flushed_entry_count j.entries db) (sym e)
          (subst (λ n. HasPrefix d c path n b.journal.entries db) (sym k) h.prefix);
  }

  committed-Holds :
      (pending : List PendingFlush) (s : Shared d c) (db : Db) (q : ActorPath) (l : Ledger P S)
      → NoDup (paths_of pending)
      → All (CapturedAt d c s) pending
      → Written d c q (batch_for q pending) s.db db
      → Holds d c q s l
      → Holds d c q (commit_flush d c pending (record s { db = db })) l
  committed-Holds pending s db q l n captured w h =
      let s' = commit_flush d c pending (record s { db = db }) in
      let at = commit_flush-at pending (record s { db = db }) q n in
      elim (Option-cases (batch_for q pending)) [
        | inl e ↦
            let same : Same d c q s.db db = subst (λ o. Written d c q o s.db db) e w in
            Holds-Same q s s' l (at.0 ∙ ap (λ o. behind o (s.journals q)) e)
              (subst (Same d c q s.db) (sym at.1) same) h
        | inr (batch, e) ↦
            let ((b, je, ae, captured_b), at_path) = CapturedAt-find s pending q batch captured e in
            let jq = ap s.journals (sym at_path) ∙ je in
            let held = Holds-warm d c q s l b h jq ae in
            let flushed = flushed_to batch b in
            let kept : IsBuffered d c q flushed s'.db l = record {
              events = held.events;
              latest = held.latest;
              is_dense = held.is_dense;
              anchored = held.anchored;
              flushed = captured_b.until;
              prefix = subst (HasPrefix d c q batch.captured_end b.journal.entries) (sym at.1) (
                  Written-HasPrefix q b batch s.db db captured_b held.prefix
                    (subst (λ o. Written d c q o s.db db) e w));
            } in
            let at' = at.0 ∙ ap (λ o. behind o (s.journals q)) e ∙ ap (behind (some batch)) jq in
            elim (completed-cases batch b) [
              | inl (gone, full) ↦
                  cold (at' ∙ gone) (IsBuffered-IsStored d c q flushed s'.db l (sym full) kept)
              | inr (b', is_it, journal, count, active) ↦
                  warm b' (at' ∙ is_it) (active ∙ ae)
                    (IsBuffered-Same q flushed b' s'.db l journal count kept)
            ]
      ]

  pub All-Fits :
      (s : Shared d c) (ledgers : ActorPath → Ledger P S) (pending : List PendingFlush)
      → ((q : ActorPath) → Holds d c q s (ledgers q))
      → All (CapturedAt d c s) pending
      → All (λ b. Fits d c b s.db) pending
  All-Fits s ledgers [] h captured = tt
  All-Fits s ledgers (batch ∷ pending) h captured = (
    CapturedAt-Fits d c s (ledgers batch.path) batch (h batch.path) captured.0,
    All-Fits s ledgers pending h captured.1,
  )

  -- A write of captured batches keeps every path's ledger, whether the database fails or not, and succeeds
  -- if it does not.
  pub write_pending-Holds :
      (fails : Bool) (pending : List PendingFlush) (s : Shared d c)
      (ledgers : ActorPath → Ledger P S)
      → NoDup (paths_of pending)
      → All (CapturedAt d c s) pending
      → ((q : ActorPath) → Holds d c q s (ledgers q))
      → ((q : ActorPath) → Holds d c q (write_pending d c fails pending s).0 (ledgers q))
        × (fails ≡ false → (write_pending d c fails pending s).1 ≡ true)
  unfolding write_pending
  write_pending-Holds fails [] s ledgers n captured h = (h, λ e. refl)
  write_pending-Holds true (batch ∷ pending) s ledgers n captured h = (h, λ e. absurd cc)
  write_pending-Holds false (batch ∷ pending) s ledgers n captured h =
      let (db, done, written) =
        write_pending_statements-Written d c (batch ∷ pending) s.db n
          (All-Fits s ledgers (batch ∷ pending) h captured) in
      rw (write_pending, done)
        (
          λ q. committed-Holds (batch ∷ pending) s db q (ledgers q) n captured (written q) (h q),
          λ e. refl,
        )
