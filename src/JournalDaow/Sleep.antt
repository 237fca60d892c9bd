-- ===== src/JournalDaow/Sleep.antt =====
-- Flushes and passivations of src/journal_daow.rs over the ledgers.
use trouper.Prelude.{
  ◌≡◌, refl, sym, ap, subst, ◌∙◌, inl, inr, Bool, true, false, none, some, List, [], ◌∷◌,
  update_self, some-inj, NoDup, All,
}
use trouper.Journal.{ActorPath}
use trouper.JournalDaow.Rows.{Codec}
use trouper.JournalDaow.Database.{Database}
use trouper.JournalDaow.Buffers.{PathBuffer, Shared, set_buffer}
use trouper.JournalDaow.Flush.{PendingFlush, write_pending, collect_pending, flush_cycle}
use trouper.JournalDaow.Cold.{release_when_durable, passivated}
use trouper.JournalDaow.Ledger.{Ledger, Holds, cold, warm, IsCaptured}
use trouper.JournalDaow.Capture.{
  CapturedAt, Holds-warm, collected_at, collected_at-cases, collect_pending-CapturedAt,
  collect_pending-NoDup,
}
use trouper.JournalDaow.Refine.{IsBuffered-Same, write_pending-Holds}
use trouper.JournalDaow.Replace.{kept-Holds, set_buffer-CapturedAt}

module _ (d : Database) {P S : Type 0} (c : Codec P S) where
  -- A flush, whatever the order in which it visits the buffers and whether the database fails.
  pub flush_cycle-Holds :
      (order : List ActorPath) (fails : Bool) (s : Shared d c) (ledgers : ActorPath → Ledger P S)
      → NoDup order
      → ((q : ActorPath) → Holds d c q s (ledgers q))
      → ((q : ActorPath) → Holds d c q (flush_cycle d c order fails s).0 (ledgers q))
        × (fails ≡ false → (flush_cycle d c order fails s).1 ≡ true)
  unfolding flush_cycle
  flush_cycle-Holds order fails s ledgers n h =
      write_pending-Holds d c fails (collect_pending d c order s) s ledgers
        (collect_pending-NoDup d c order s ledgers h n)
        (collect_pending-CapturedAt d c order s ledgers h) h

  IsCaptured-flag :
      (b : PathBuffer P S) (batch : PendingFlush) (flag : Bool)
      → IsCaptured d c b batch
      → IsCaptured d c (record b { drop_when_durable = flag }) batch
  IsCaptured-flag b batch flag h = record {
    from = h.from;
    until = h.until;
    rows = h.rows;
    text = h.text;
  }

  pub passivated-pending :
      (path : ActorPath) (fails : Bool) (s : Shared d c) (batch : PendingFlush)
      → collected_at d c path s ≡ batch ∷ []
      → passivated d c path fails s
        ≡ write_pending d c fails (batch ∷ []) (release_when_durable d c path s)
  unfolding passivated collect_pending
  passivated-pending path fails s batch e = rw (passivated, collect_pending, e) refl

  -- The marker that a passivation raises between its capture and its write.
  pub release_when_durable-Holds :
      (path : ActorPath) (b : PathBuffer P S) (s : Shared d c) (ledgers : ActorPath → Ledger P S)
      (pending : List PendingFlush)
      → s.journals path ≡ some b
      → b.activation_in_progress ≡ false
      → ((q : ActorPath) → Holds d c q s (ledgers q))
      → All (CapturedAt d c s) pending
      → ((q : ActorPath) → Holds d c q (release_when_durable d c path s) (ledgers q))
        × All (CapturedAt d c (release_when_durable d c path s)) pending
  unfolding release_when_durable
  release_when_durable-Holds path b s ledgers pending jp ae h captured =
      let b' : PathBuffer P S = record b { drop_when_durable = true } in
      let released : release_when_durable d c path s ≡ set_buffer d c path (some b') s =
        rw (release_when_durable, jp) refl in
      let held = Holds-warm d c path s (ledgers path) b (h path) jp ae in
      subst (λ r. ((q : ActorPath) → Holds d c q r (ledgers q)) × All (CapturedAt d c r) pending)
        (sym released)
        (
          kept-Holds d c path (some b') s ledgers
              (warm b' (update_self path (some b') s.journals) ae
                (IsBuffered-Same d c path b b' s.db (ledgers path) refl refl held))
              h,
          set_buffer-CapturedAt d c path b' s.ingest_seq s pending ae
              (λ b0 x e0 captured0.
                IsCaptured-flag b x true
                  (subst (λ y. IsCaptured d c y x) (some-inj (sym e0 ∙ jp)) captured0))
              captured,
        )

  -- A passivation keeps every path's ledger, whether the database fails or not, and succeeds if it does
  -- not.
  pub passivated-Holds :
      (path : ActorPath) (fails : Bool) (s : Shared d c) (ledgers : ActorPath → Ledger P S)
      → ((q : ActorPath) → Holds d c q s (ledgers q))
      → ((q : ActorPath) → Holds d c q (passivated d c path fails s).0 (ledgers q))
        × (fails ≡ false → (passivated d c path fails s).1 ≡ true)
  unfolding passivated collect_pending
  passivated-Holds path fails s ledgers h =
      elim (collected_at-cases d c path s (ledgers path) (h path)) [
        | inl (e, stored) ↦
            rw (passivated, collect_pending, e)
              (
                kept-Holds d c path none s ledgers (cold (update_self path none s.journals) stored)
                    h,
                λ f. refl,
              )
        | inr (batch, e, at, captured) ↦
            let (b, je, ae, captured_b) = captured in
            let jp = ap s.journals (sym at) ∙ je in
            let (holds, marked) =
              release_when_durable-Holds path b s ledgers (batch ∷ []) jp ae h
                ((b, je, ae, captured_b), tt) in
            subst
              (λ (r : Shared d c × Bool).
                ((q : ActorPath) → Holds d c q r.0 (ledgers q)) × (fails ≡ false → r.1 ≡ true))
              (sym (passivated-pending path fails s batch e))
              (write_pending-Holds d c fails (batch ∷ []) (release_when_durable d c path s) ledgers
                (refl, tt) marked holds)
      ]
