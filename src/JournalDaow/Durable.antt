-- ===== src/JournalDaow/Durable.antt =====
-- After a flush of src/journal_daow.rs that visits every buffer and succeeds, the database has everything.
use trouper.Prelude.{
  ◌≤◌, ◌≡◌, refl, sym, ap, subst, ◌∙◌, inl, inr, Bool, true, false, Option, none, some, List, [],
  ◌∷◌, ◌++◌, arith, str_eq, eq_iff, Bool-cases, Option-cases, length, contains, differs, some-inj,
  NoDup,
}
use trouper.Journal.{ActorPath}
use trouper.JournalDaow.Rows.{Codec}
use trouper.JournalDaow.Database.{Database}
use trouper.JournalDaow.Buffers.{PathBuffer, Shared, build}
use trouper.JournalDaow.Flush.{
  PendingFlush, collect_buffer, collect_pending, write_pending, write_pending_statements,
  flush_cycle,
}
use trouper.JournalDaow.Ledger.{Ledger, IsLedger, IsStored, Holds}
use trouper.JournalDaow.Write.{
  paths_of, batch_for, batch_for-absent, Same, Written, write_pending_statements-Written,
}
use trouper.JournalDaow.Capture.{
  Holds-warm, IsBuffered-IsStored, collected_at, collected_at-cases, collect_buffer-cases,
  paths_of-collect_pending, collect_pending-CapturedAt, collect_pending-NoDup,
}
use trouper.JournalDaow.Refine.{flushed_to, All-Fits, Written-HasPrefix, commit_flush-at}
use trouper.JournalDaow.Runs.{IsKept, build-IsKept}

module _ (d : Database) {P S : Type 0} (c : Codec P S) where
  open d use {Db}

  abbrev first_of : List PendingFlush → Option PendingFlush
  first_of [] = none
  first_of (batch ∷ rest) = some batch

  -- A flush that visits the path captures all that its buffer has.
  batch_for-collected :
      (order : List ActorPath) (s : Shared d c) (ledgers : ActorPath → Ledger P S) (q : ActorPath)
      → ((q : ActorPath) → Holds d c q s (ledgers q))
      → NoDup order
      → contains order q ≡ true
      → batch_for q (collect_pending d c order s) ≡ first_of (collected_at d c q s)
  unfolding collect_pending
  batch_for-collected [] s ledgers q h n m = absurd cc
  batch_for-collected (p ∷ order) s ledgers q h n m = elim (Bool-cases (str_eq p q)) [
    | inl e ↦
        let same = (eq_iff p q).0 e in
        let gone : batch_for q (collect_pending d c order s) ≡ none =
          batch_for-absent q (collect_pending d c order s) (
            paths_of-collect_pending d c order s ledgers q h
              (subst (λ x. contains order x ≡ false) same n.0)) in
        subst
          (λ x.
            batch_for q (collected_at d c p s ++ collect_pending d c order s)
            ≡ first_of (collected_at d c x s))
          same
          (elim (collected_at-cases d c p s (ledgers p) (h p)) [
            | inl (f, stored) ↦ rw f gone
            | inr (batch, f, at, captured) ↦ rw (f, (eq_iff batch.path q).1 (at ∙ same)) refl
          ])
    | inr e ↦
        let rest = batch_for-collected order s ledgers q h n.1 (ground (arith, m, e)) in
        elim (collected_at-cases d c p s (ledgers p) (h p)) [
          | inl (f, stored) ↦ rw f rest
          | inr (batch, f, at, captured) ↦
              rw (f, differs batch.path q (λ same. ground (arith, e, eq_iff p q, at, same))) rest
        ]
  ]

  -- The same for a flush that visits every buffer there is.
  batch_for-visited :
      (order : List ActorPath) (s : Shared d c) (ledgers : ActorPath → Ledger P S) (q : ActorPath)
      → ((q : ActorPath) → Holds d c q s (ledgers q))
      → NoDup order
      → ((b : PathBuffer P S) → s.journals q ≡ some b → contains order q ≡ true)
      → batch_for q (collect_pending d c order s) ≡ first_of (collected_at d c q s)
  batch_for-visited order s ledgers q h n all = elim (Bool-cases (contains order q)) [
    | inl m ↦ batch_for-collected order s ledgers q h n m
    | inr m ↦
        let absent =
          batch_for-absent q (collect_pending d c order s)
            (paths_of-collect_pending d c order s ledgers q h m) in
        elim (Option-cases (s.journals q)) [
          | inl e ↦
              let nothing : collected_at d c q s ≡ [] = rw (collected_at, e) refl in
              absent ∙ ap first_of (sym nothing)
          | inr (b, e) ↦ let clash : ◌≡◌ {A = Bool} true false = sym (all b e) ∙ m in absurd cc
        ]
  ]

  write_pending-done :
      (pending : List PendingFlush) (s : Shared d c) (db : Db)
      → NoDup (paths_of pending)
      → write_pending_statements d c pending s.db ≡ some db
      → ((write_pending d c false pending s).1 ≡ true)
        × ((write_pending d c false pending s).0.db ≡ db)
  unfolding write_pending write_pending_statements
  write_pending-done [] s db n e = (refl, some-inj e)
  write_pending-done (batch ∷ pending) s db n e =
      rw (write_pending, e)
        (refl, (commit_flush-at d c (batch ∷ pending) (record s { db = db }) batch.path n).1)

  collected-end :
      (path : ActorPath) (s : Shared d c) (b : PathBuffer P S) (batch : PendingFlush)
      → s.journals path ≡ some b
      → b.flushed_entry_count ≤ length b.journal.entries
      → collected_at d c path s ≡ batch ∷ []
      → batch.captured_end ≡ length b.journal.entries
  collected-end path s b batch e f g =
      let here : collect_buffer d c path b ≡ batch ∷ [] = sym (rw (collected_at, e) refl) ∙ g in
      elim (collect_buffer-cases d c path b f) [
        | inl (k, all) ↦
            let clash : ◌≡◌ {A = List PendingFlush} [] (batch ∷ []) = sym k ∙ here in absurd cc
        | inr (other, k, at, captured, end) ↦
            let same : other ≡ batch = some-inj (ap first_of (sym k ∙ here)) in
            ap (λ (x : PendingFlush). x.captured_end) (sym same) ∙ end
      ]

  IsStored-behind :
      (s : Shared d c) (db : Db) (q : ActorPath) (l : Ledger P S)
      → Holds d c q s l
      → Written d c q (first_of (collected_at d c q s)) s.db db
      → IsStored d c q db l
  IsStored-behind s db q l h w = elim (collected_at-cases d c q s l h) [
    | inl (e, stored) ↦
        let same : Same d c q s.db db = subst (λ x. Written d c q (first_of x) s.db db) e w in
        record { rows = same.0 ∙ stored.rows; text = same.1 ∙ stored.text }
    | inr (batch, e, at, (b, je, ae, captured)) ↦
        let jq = ap s.journals (sym at) ∙ je in
        let held = Holds-warm d c q s l b h jq ae in
        let end = collected-end q s b batch jq held.flushed e in
        let w' : Written d c q (some batch) s.db db =
          subst (λ x. Written d c q (first_of x) s.db db) e w in
        IsBuffered-IsStored d c q (flushed_to d c batch b) db l end (record {
          events = held.events;
          latest = held.latest;
          is_dense = held.is_dense;
          anchored = held.anchored;
          flushed = captured.until;
          prefix = Written-HasPrefix d c q b batch s.db db captured held.prefix w';
        })
  ]

  -- A successful flush of every buffer makes everything durable: the database has every path's events
  -- and latest snapshot, so that a store that is built over it afterwards holds the same ledgers.
  pub flush_cycle-IsKept :
      (order : List ActorPath) (s : Shared d c) (ledgers : ActorPath → Ledger P S)
      → NoDup order
      → ((q : ActorPath) (b : PathBuffer P S) → s.journals q ≡ some b → contains order q ≡ true)
      → ((q : ActorPath) → Holds d c q s (ledgers q))
      → ((q : ActorPath) → IsLedger (ledgers q))
      → let r = flush_cycle d c order false s in
        (r.1 ≡ true)
        × IsKept d c (record { shared = build d c r.0.db; in_flight = none; ledgers = ledgers })
  unfolding flush_cycle
  flush_cycle-IsKept order s ledgers n all h l =
      let pending = collect_pending d c order s in
      let apart = collect_pending-NoDup d c order s ledgers h n in
      let (db, done, written) =
        write_pending_statements-Written d c pending s.db apart
          (All-Fits d c s ledgers pending h (collect_pending-CapturedAt d c order s ledgers h)) in
      let (ok, at) = write_pending-done pending s db apart done in
      let stored = λ (q : ActorPath). IsStored-behind s db q (ledgers q) (h q) (
        subst (λ o. Written d c q o s.db db) (batch_for-visited order s ledgers q h n (all q))
          (written q)) in
      (
        ok,
        subst
            (λ x. IsKept d c (record { shared = build d c x; in_flight = none; ledgers = ledgers }))
            (sym at) (build-IsKept d c db ledgers stored l),
      )
