-- ===== src/JournalDaow/Replace.antt =====
-- One path's buffer of src/journal_daow.rs is replaced, or taken out.
use trouper.Prelude.{
  ℕ, ◌≡◌, refl, sym, ap, subst, ◌∙◌, ◌≢◌, inl, inr, false, Option, some, List, [], ◌∷◌, arith,
  str_eq, eq_iff, Bool-cases, All, update, update_self, update_other, update_same,
}
use trouper.Journal.{ActorPath}
use trouper.JournalDaow.Rows.{Codec}
use trouper.JournalDaow.Database.{Database}
use trouper.JournalDaow.Buffers.{PathBuffer, Shared, set_buffer}
use trouper.JournalDaow.Flush.{PendingFlush}
use trouper.JournalDaow.Ledger.{Ledger, IsBuffered, Holds, warm, IsCaptured}
use trouper.JournalDaow.Capture.{CapturedAt}
use trouper.JournalDaow.Refine.{Holds-Same}

module _ (d : Database) {P S : Type 0} (c : Codec P S) where
  -- One path's entry is replaced, and its ledger with it.
  pub replaced-Holds :
      (path : ActorPath) (o : Option (PathBuffer P S)) (ingest : ℕ) (s : Shared d c)
      (ledgers : ActorPath → Ledger P S) (l : Ledger P S)
      → Holds d c path (record (set_buffer d c path o s) { ingest_seq = ingest }) l
      → ((q : ActorPath) → Holds d c q s (ledgers q))
      → (q : ActorPath)
      → Holds d c q
          (record (set_buffer d c path o s) { ingest_seq = ingest })
          (update path l ledgers q)
  replaced-Holds path o ingest s ledgers l i h q =
      let s' = record (set_buffer d c path o s) { ingest_seq = ingest } in
      elim (Bool-cases (str_eq q path)) [
        | inl e ↦
            subst (λ x. Holds d c x s' (update path l ledgers x)) (sym ((eq_iff q path).0 e))
              (subst (Holds d c path s') (sym (update_self path l ledgers)) i)
        | inr e ↦
            let n : q ≢ path = λ same. ground (arith, e, same, eq_iff q path) in
            subst (Holds d c q s') (sym (update_other path q l ledgers n)) (
              Holds-Same d c q s s' (ledgers q) (update_other path q o s.journals n) (refl, refl)
                (h q))
      ]

  pub set_buffer-Holds :
      (path : ActorPath) (b : PathBuffer P S) (ingest : ℕ) (s : Shared d c)
      (ledgers : ActorPath → Ledger P S) (l : Ledger P S)
      → b.activation_in_progress ≡ false
      → IsBuffered d c path b s.db l
      → ((q : ActorPath) → Holds d c q s (ledgers q))
      → (q : ActorPath)
      → Holds d c q
          (record (set_buffer d c path (some b) s) { ingest_seq = ingest })
          (update path l ledgers q)
  set_buffer-Holds path b ingest s ledgers l a i h =
      replaced-Holds path (some b) ingest s ledgers l
        (warm b (update_self path (some b) s.journals) a i) h

  -- The same, where the ledger stays.
  pub kept-Holds :
      (path : ActorPath) (o : Option (PathBuffer P S)) (s : Shared d c)
      (ledgers : ActorPath → Ledger P S)
      → Holds d c path (set_buffer d c path o s) (ledgers path)
      → ((q : ActorPath) → Holds d c q s (ledgers q))
      → (q : ActorPath) → Holds d c q (set_buffer d c path o s) (ledgers q)
  kept-Holds path o s ledgers i h q =
      subst (Holds d c q (set_buffer d c path o s)) (update_same path ledgers q)
        (replaced-Holds path o s.ingest_seq s ledgers (ledgers path) i h q)

  pub set_buffer-CapturedAt :
      (path : ActorPath) (b : PathBuffer P S) (ingest : ℕ) (s : Shared d c)
      (pending : List PendingFlush)
      → b.activation_in_progress ≡ false
      → ((b0 : PathBuffer P S) (batch : PendingFlush)
          → s.journals path ≡ some b0
          → IsCaptured d c b0 batch
          → IsCaptured d c b batch)
      → All (CapturedAt d c s) pending
      → All
          (CapturedAt d c (record (set_buffer d c path (some b) s) { ingest_seq = ingest }))
          pending
  set_buffer-CapturedAt path b ingest s [] a f h = tt
  set_buffer-CapturedAt path b ingest s (batch ∷ pending) a f h =
      let (b0, e0, a0, captured) = h.0 in
      (
        elim (Bool-cases (str_eq batch.path path)) [
          | inl e ↦
              let p = (eq_iff batch.path path).0 e in
              (
                b,
                ap (update path (some b) s.journals) p ∙ update_self path (some b) s.journals,
                a,
                f b0 batch (ap s.journals (sym p) ∙ e0) captured,
              )
          | inr e ↦ (
            b0,
            update_other path batch.path (some b) s.journals
                  (λ same. ground (arith, e, same, eq_iff batch.path path))
                ∙ e0,
            a0,
            captured,
          )
        ],
        set_buffer-CapturedAt path b ingest s pending a f h.1,
      )
