-- ===== src/JournalDaow/Retained.antt =====
-- What a flush of src/journal_daow.rs leaves alone, and what a passivation leaves behind.
use trouper.Prelude.{
  ◌≡◌, refl, sym, ap, subst, ◌∙◌, ◌≢◌, inl, inr, Bool, true, false, none, some, List, [], ◌∷◌,
  arith, str_eq, eq_iff, ◌==◌, if◌then◌else◌, Bool-cases, Option-cases, length, take, drop, All,
  contains, update_self, update_other, differs, some-inj,
}
use trouper.Journal.{ActorPath}
use trouper.JournalDaow.Rows.{Codec}
use trouper.JournalDaow.Database.{Database}
use trouper.JournalDaow.Buffers.{PathBuffer, Shared, set_buffer}
use trouper.JournalDaow.Flush.{
  PendingFlush, collect_buffer, collect_entries, collect_pending, completed, commit_flush,
  write_pending, write_pending_statements, flush_cycle,
}
use trouper.JournalDaow.Cold.{release_when_durable, passivated}
use trouper.JournalDaow.Ledger.{Ledger, Holds}
use trouper.JournalDaow.Write.{paths_of, batch_for, write_pending_statements-Written}
use trouper.JournalDaow.Capture.{CapturedAt, collected_at, collect_pending-CapturedAt}
use trouper.JournalDaow.Refine.{commit_flush-at, behind, flushed_to, All-Fits}
use trouper.JournalDaow.Sleep.{passivated-pending}

module _ (d : Database) {P S : Type 0} (c : Codec P S) where
  open d use {Db}

  -- The batch of a buffer that is not flushed to its end.
  abbrev pub batch_of_buffer : ActorPath → PathBuffer P S → PendingFlush
  batch_of_buffer path b =
      let end = length b.journal.entries in
      let rows =
        collect_entries d c (drop b.flushed_entry_count (take end b.journal.entries)) none in
      record {
        path = path;
        events = rows.0;
        latest = rows.1;
        captured_end = end;
        drop_when_durable = b.drop_when_durable;
      }

  pub collect_buffer-batch :
      (path : ActorPath) (b : PathBuffer P S)
      → collect_buffer d c path b ≡ (
          if b.flushed_entry_count == length b.journal.entries
          then []
          else batch_of_buffer path b ∷ [])
  unfolding collect_buffer
  collect_buffer-batch path b = refl

  not_collected :
      (path : ActorPath) (b : PathBuffer P S) (order : List ActorPath) (s : Shared d c)
      → s.journals path ≡ some b
      → b.flushed_entry_count ≡ length b.journal.entries
      → contains (paths_of (collect_pending d c order s)) path ≡ false
  unfolding collect_pending collect_buffer
  not_collected path b [] s e f = refl
  not_collected path b (p ∷ order) s e f =
      let rest = not_collected path b order s e f in
      elim (Option-cases (s.journals p)) [
        | inl g ↦ rw (g) rest
        | inr (b', g) ↦ elim (Bool-cases (b'.flushed_entry_count == length b'.journal.entries)) [
          | inl w ↦ rw (g, collect_buffer, w) rest
          | inr w ↦
              let other : str_eq p path ≡ false = differs p path (λ same.
                let met : b' ≡ b = some-inj (sym g ∙ ap s.journals same ∙ e) in
                let flushed : b'.flushed_entry_count ≡ length b'.journal.entries =
                  subst (λ (x : PathBuffer P S). x.flushed_entry_count ≡ length x.journal.entries)
                    (sym met) f in
                ground (arith, w, flushed)) in
              rw (g, collect_buffer, w) (ground (arith, other, rest))
        ]
      ]

  commit_flush-absent :
      (pending : List PendingFlush) (s : Shared d c) (q : ActorPath)
      → contains (paths_of pending) q ≡ false
      → (commit_flush d c pending s).journals q ≡ s.journals q
  unfolding commit_flush
  commit_flush-absent [] s q n = refl
  commit_flush-absent (batch ∷ pending) s q n = elim (Option-cases (s.journals batch.path)) [
    | inl g ↦ rw (commit_flush, g) (commit_flush-absent pending s q (ground (arith, n)))
    | inr (b, g) ↦
        rw (commit_flush, g)
          (commit_flush-absent pending (set_buffer d c batch.path (completed d c batch b) s) q
              (ground (arith, n))
            ∙ update_other batch.path q (completed d c batch b) s.journals
                (λ same. ground (arith, n, same, eq_iff batch.path q)))
  ]

  write_pending-absent :
      (fails : Bool) (pending : List PendingFlush) (s : Shared d c) (q : ActorPath)
      → contains (paths_of pending) q ≡ false
      → (write_pending d c fails pending s).0.journals q ≡ s.journals q
  unfolding write_pending
  write_pending-absent fails [] s q n = refl
  write_pending-absent true (batch ∷ pending) s q n = refl
  write_pending-absent false (batch ∷ pending) s q n =
      elim (Option-cases (write_pending_statements d c (batch ∷ pending) s.db)) [
        | inl e ↦ rw (write_pending, e) refl
        | inr (db, e) ↦
            rw (write_pending, e) (commit_flush-absent (batch ∷ pending) (record s { db = db }) q n)
      ]

  -- A flush does not touch a buffer that is flushed to its end.
  flush_cycle-idle :
      (path : ActorPath) (b : PathBuffer P S) (order : List ActorPath) (fails : Bool)
      (s : Shared d c)
      → s.journals path ≡ some b
      → b.flushed_entry_count ≡ length b.journal.entries
      → (flush_cycle d c order fails s).0.journals path ≡ s.journals path
  unfolding flush_cycle
  flush_cycle-idle path b order fails s e f =
      write_pending-absent fails (collect_pending d c order s) s path
        (not_collected path b order s e f)

  collected_once :
      (path : ActorPath) (s : Shared d c) (batch : PendingFlush)
      → collected_at d c path s ≡ batch ∷ []
      → collect_pending d c (path ∷ []) s ≡ batch ∷ []
  unfolding collect_pending
  collected_once path s batch e = rw (collect_pending, e) refl

  written_once :
      (batch : PendingFlush) (s : Shared d c) (db : Db)
      → write_pending_statements d c (batch ∷ []) s.db ≡ some db
      → write_pending d c false (batch ∷ []) s
        ≡ (commit_flush d c (batch ∷ []) (record s { db = db }), true)
  unfolding write_pending
  written_once batch s db e = rw (write_pending, e) refl

  found_self :
      (path : ActorPath) (batch : PendingFlush)
      → batch.path ≡ path
      → batch_for path (batch ∷ []) ≡ some batch
  found_self path batch e = rw ((eq_iff batch.path path).1 e) refl

  -- A passivation that has something to flush, of a buffer without the release flag, succeeds if the
  -- database does not fail and no append comes into it, and keeps the buffer in memory: the flag that
  -- would drop it is raised behind the capture, so the commit does not see it. A flush directly behind
  -- it has nothing of the path to flush, and does not drop the buffer either.
  pub passivated-retained :
      (path : ActorPath) (b : PathBuffer P S) (s : Shared d c) (ledgers : ActorPath → Ledger P S)
      → ((q : ActorPath) → Holds d c q s (ledgers q))
      → s.journals path ≡ some b
      → b.drop_when_durable ≡ false
      → b.flushed_entry_count ≢ length b.journal.entries
      → let r = passivated d c path false s in
        (r.1 ≡ true)
        × (b' : PathBuffer P S) × (r.0.journals path ≡ some b')
        × (b'.journal ≡ b.journal)
        × (b'.drop_when_durable ≡ true)
        × ((order : List ActorPath) (fails : Bool)
            → (flush_cycle d c order fails r.0).0.journals path ≡ some b')
  unfolding release_when_durable completed
  passivated-retained path b s ledgers h e f n =
      let batch = batch_of_buffer path b in
      let b1 : PathBuffer P S = record b { drop_when_durable = true } in
      let s2 = set_buffer d c path (some b1) s in
      let unflushed : (b.flushed_entry_count == length b.journal.entries) ≡ false =
        ground (arith, n) in
      let collected : collected_at d c path s ≡ batch ∷ [] =
        rw (collected_at, e) (collect_buffer-batch path b ∙ rw unflushed refl) in
      let captured =
        subst (All (CapturedAt d c s)) (collected_once path s batch collected)
          (collect_pending-CapturedAt d c (path ∷ []) s ledgers h) in
      let (db, done, written) =
        write_pending_statements-Written d c (batch ∷ []) s.db (refl, tt)
          (All-Fits d c s ledgers (batch ∷ []) h captured) in
      let s3 = commit_flush d c (batch ∷ []) (record s2 { db = db }) in
      let released : release_when_durable d c path s ≡ s2 = rw (release_when_durable, e) refl in
      let result : passivated d c path false s ≡ (s3, true) =
        passivated-pending d c path false s batch collected
        ∙ ap (write_pending d c false (batch ∷ [])) released
        ∙ written_once batch s2 db done in
      let at : s3.journals path ≡ some (flushed_to d c batch b1) =
        (commit_flush-at d c (batch ∷ []) (record s2 { db = db }) path (refl, tt)).0
        ∙ ap (λ o. behind d c o (s2.journals path)) (found_self path batch refl)
        ∙ ap (behind d c (some batch)) (update_self path (some b1) s.journals)
        ∙ rw (completed, f) refl in
      subst
        (λ (r : Shared d c × Bool).
          (r.1 ≡ true)
          × (b' : PathBuffer P S) × (r.0.journals path ≡ some b')
          × (b'.journal ≡ b.journal)
          × (b'.drop_when_durable ≡ true)
          × ((order : List ActorPath) (fails : Bool)
              → (flush_cycle d c order fails r.0).0.journals path ≡ some b'))
        (sym result)
        (
          refl,
          flushed_to d c batch b1,
          at,
          refl,
          refl,
          λ order fails.
              flush_cycle-idle path (flushed_to d c batch b1) order fails s3 at refl ∙ at,
        )
