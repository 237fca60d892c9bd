-- ===== src/JournalDaow/Runs.antt =====
-- The store of src/journal_daow.rs over time: appends, flushes in two steps, loads, passivations and purges
-- under the drain lock, with the database failing whenever it likes. An append that comes between
-- the two steps of a purge, or between the check and the removal of a passivation with nothing to
-- flush, is lost with its buffer; such runs are left out.
use trouper.Prelude.{
  ℕ, suc, ◌+◌, ◌≤◌, ◌<◌, ◌≡◌, refl, sym, ap, subst, ◌∙◌, inl, inr, Bool, true, false, Option, none,
  some, List, [], ◌∷◌, arith, str_eq, if◌then◌else◌, Bool-cases, u64_mod, u64_max, add_u64, length,
  All, length-append, update, some-inj, NoDup,
}
use trouper.Journal.{ActorPath, SeqNo, Event}
use trouper.JournalDaow.Rows.{Codec}
use trouper.JournalDaow.Rows.RoundTrip.{Counted}
use trouper.JournalDaow.Database.{Database}
use trouper.JournalDaow.Buffers.{PathBuffer, Shared, build, buffer_append, buffer_append_snapshot}
use trouper.JournalDaow.Flush.{PendingFlush, collect_pending, write_pending}
use trouper.JournalDaow.Cold.{load, release_when_durable, passivated, purge}
use trouper.JournalDaow.Ledger.{Ledger, IsLedger, IsStored, Holds, cold}
use trouper.JournalDaow.Entries.{Counted-append}
use trouper.JournalDaow.Write.{paths_of}
use trouper.JournalDaow.Capture.{CapturedAt, collect_pending-CapturedAt, collect_pending-NoDup}
use trouper.JournalDaow.Refine.{write_pending-Holds}
use trouper.JournalDaow.Grow.{presented, with_events, with_snapshot, IsReady}
use trouper.JournalDaow.Appends.{buffer_append-Holds, buffer_append_snapshot-Holds}
use trouper.JournalDaow.Loads.{load-Holds, purge-Holds}
use trouper.JournalDaow.Sleep.{release_when_durable-Holds, passivated-Holds}

-- Nothing is left of a purged path, unless the purge failed.
abbrev pub purged :
    {P S : Type 0} → Bool → ActorPath → (ActorPath → Ledger P S) → ActorPath → Ledger P S
purged fails path ledgers =
    if fails then ledgers else update path (record { events = []; latest = none }) ledgers

module _ (d : Database) {P S : Type 0} (c : Codec P S) where
  open d use {Db}

  -- The store, the batches that a flush has captured and not written yet, and what is acknowledged.
  pub record World : Type 0 where
    pub shared : Shared d c
    pub in_flight : Option (List PendingFlush)
    pub ledgers : ActorPath → Ledger P S

  pub data Step : World → World → Type 0 where
    appends :
        (path : ActorPath) (evs : List (Event P)) (w : World) (s' : Shared d c) (seqs : List SeqNo)
        → IsReady d c path w.shared (w.ledgers path)
        → length (w.ledgers path).events + length evs < u64_max
        → w.shared.ingest_seq + length evs < u64_mod
        → buffer_append d c path evs w.shared ≡ some (s', seqs)
        → Step w (record w {
          shared = s';
          ledgers = update path (with_events w.shared.ingest_seq evs (w.ledgers path)) w.ledgers;
        })
    snapshots :
        (path : ActorPath) (seq : SeqNo) (st : S) (now : ℕ) (w : World) (s' : Shared d c)
        → IsReady d c path w.shared (w.ledgers path)
        → ((old : SeqNo) (t : S) → (w.ledgers path).latest ≡ some (old, t) → old ≤ seq)
        → buffer_append_snapshot d c path seq st now w.shared ≡ some s'
        → Step w (record w {
          shared = s';
          ledgers = update path (with_snapshot seq st (w.ledgers path)) w.ledgers;
        })
    captures :
        (order : List ActorPath) (w : World)
        → NoDup order
        → w.in_flight ≡ none
        → Step w (record w { in_flight = some (collect_pending d c order w.shared) })
    writes :
        (fails : Bool) (pending : List PendingFlush) (w : World)
        → w.in_flight ≡ some pending
        → Step w
            (record w { shared = (write_pending d c fails pending w.shared).0; in_flight = none })
    loads :
        (path : ActorPath) (fails : Bool) (w : World)
        → w.in_flight ≡ none
        → Step w (record w { shared = (load d c path fails w.shared).0 })
    -- Between the capture and the write of a passivation, which are steps of their own.
    marks :
        (path : ActorPath) (b : PathBuffer P S) (w : World)
        → w.shared.journals path ≡ some b
        → b.activation_in_progress ≡ false
        → Step w (record w { shared = release_when_durable d c path w.shared })
    passivates :
        (path : ActorPath) (fails : Bool) (w : World)
        → w.in_flight ≡ none
        → Step w (record w { shared = (passivated d c path fails w.shared).0 })
    purges :
        (path : ActorPath) (fails : Bool) (w : World)
        → w.in_flight ≡ none
        → Step w (record w {
          shared = (purge d c path fails w.shared).0;
          ledgers = purged fails path w.ledgers;
        })

  pub data Steps (w : World) : World → Type 0 where
    starts : Steps w w
    goes_on : {v u : World} → Steps w v → Step v u → Steps w u

  abbrev in_flight_of : Option (List PendingFlush) → List PendingFlush
  in_flight_of none = []
  in_flight_of (some pending) = pending

  -- Every path's ledger is held somewhere, and what a flush has captured can still be written.
  pub record IsKept (w : World) : Type 0 where
    pub holds : (q : ActorPath) → Holds d c q w.shared (w.ledgers q)
    pub ledger : (q : ActorPath) → IsLedger (w.ledgers q)
    pub captured : All (CapturedAt d c w.shared) (in_flight_of w.in_flight)
    pub apart : NoDup (paths_of (in_flight_of w.in_flight))

  Counted-presented :
      (k ingest : ℕ) (evs : List (Event P))
      → Counted k (presented k ingest evs) × (length (presented k ingest evs) ≡ length evs)
  Counted-presented k ingest [] = (tt, refl)
  Counted-presented k ingest (ev ∷ evs) =
      let r = Counted-presented (k + 1) (add_u64 ingest 1) evs in
      (
        (refl, subst (λ n. Counted n (presented (k + 1) (add_u64 ingest 1) evs)) succ r.0),
        ap suc r.1,
      )
    where
      succ : k + 1 ≡ suc k
      succ = omega arith

  with_events-IsLedger :
      (ingest : ℕ) (evs : List (Event P)) (l : Ledger P S)
      → IsLedger l
      → length l.events + length evs < u64_max
      → IsLedger (with_events ingest evs l)
  with_events-IsLedger ingest evs l h f =
      let r = Counted-presented (length l.events) ingest evs in
      record {
        counted = Counted-append 0 (length l.events) l.events _ (omega arith) h.counted r.0;
        fits =
            omega (arith, f, r.1, length-append l.events (presented (length l.events) ingest evs));
      }

  update-IsLedger :
      (path : ActorPath) (l : Ledger P S) (ledgers : ActorPath → Ledger P S)
      → IsLedger l
      → ((q : ActorPath) → IsLedger (ledgers q))
      → (q : ActorPath) → IsLedger (update path l ledgers q)
  update-IsLedger path l ledgers i h q = elim (Bool-cases (str_eq q path)) [
    | inl e ↦ rw e i
    | inr e ↦ rw e (h q)
  ]

  -- With no flush under way nothing is captured.
  unlocked :
      (w : World) (s : Shared d c) (ledgers : ActorPath → Ledger P S)
      → w.in_flight ≡ none
      → ((q : ActorPath) → Holds d c q s (ledgers q))
      → ((q : ActorPath) → IsLedger (ledgers q))
      → IsKept (record w { shared = s; ledgers = ledgers })
  unlocked w s ledgers e h l = record {
    holds = h;
    ledger = l;
    captured = subst (λ o. All (CapturedAt d c s) (in_flight_of o)) (sym e) tt;
    apart = subst (λ o. NoDup (paths_of (in_flight_of o))) (sym e) tt;
  }

  purged-IsLedger :
      (fails : Bool) (path : ActorPath) (ledgers : ActorPath → Ledger P S)
      → ((q : ActorPath) → IsLedger (ledgers q))
      → (q : ActorPath) → IsLedger (purged fails path ledgers q)
  purged-IsLedger true path ledgers h = h
  purged-IsLedger false path ledgers h =
      update-IsLedger path (record { events = []; latest = none }) ledgers
        (record { counted = tt; fits = omega arith }) h

  Step-IsKept : {w w' : World} → Step w w' → IsKept w → IsKept w'
  Step-IsKept (appends path evs w s' seqs ready f g e) k =
      let (t, at, holds, captured, ingest) =
        buffer_append-Holds d c path evs w.shared w.ledgers (in_flight_of w.in_flight) k.holds ready
          f g k.captured in
      let same : t ≡ s' = ap (λ (r : Shared d c × List SeqNo). r.0) (some-inj (sym at ∙ e)) in
      let l = with_events w.shared.ingest_seq evs (w.ledgers path) in
      record {
        holds = λ q. subst (λ s. Holds d c q s (update path l w.ledgers q)) same (holds q);
        ledger =
            update-IsLedger path l w.ledgers
              (with_events-IsLedger w.shared.ingest_seq evs (w.ledgers path) (k.ledger path) f)
              k.ledger;
        captured = subst (λ s. All (CapturedAt d c s) (in_flight_of w.in_flight)) same captured;
        apart = k.apart;
      }
  Step-IsKept (snapshots path seq st now w s' ready newer e) k =
      let (t, at, holds, captured, ingest) =
        buffer_append_snapshot-Holds d c path seq st now w.shared w.ledgers
          (in_flight_of w.in_flight) k.holds ready newer k.captured in
      let same : t ≡ s' = some-inj (sym at ∙ e) in
      let l = with_snapshot seq st (w.ledgers path) in
      record {
        holds = λ q. subst (λ s. Holds d c q s (update path l w.ledgers q)) same (holds q);
        ledger =
            update-IsLedger path l w.ledgers
              (record { counted = (k.ledger path).counted; fits = (k.ledger path).fits }) k.ledger;
        captured = subst (λ s. All (CapturedAt d c s) (in_flight_of w.in_flight)) same captured;
        apart = k.apart;
      }
  Step-IsKept (captures order w n e) k = record {
    holds = k.holds;
    ledger = k.ledger;
    captured = collect_pending-CapturedAt d c order w.shared w.ledgers k.holds;
    apart = collect_pending-NoDup d c order w.shared w.ledgers k.holds n;
  }
  Step-IsKept (writes fails pending w e) k =
      let captured = subst (λ o. All (CapturedAt d c w.shared) (in_flight_of o)) e k.captured in
      let apart = subst (λ o. NoDup (paths_of (in_flight_of o))) e k.apart in
      record {
        holds = (write_pending-Holds d c fails pending w.shared w.ledgers apart captured k.holds).0;
        ledger = k.ledger;
        captured = tt;
        apart = tt;
      }
  Step-IsKept (loads path fails w e) k =
      unlocked w (load d c path fails w.shared).0 w.ledgers e
        (load-Holds d c path fails w.shared w.ledgers (k.ledger path) k.holds).0 k.ledger
  Step-IsKept (marks path b w e f) k =
      let (holds, captured) =
        release_when_durable-Holds d c path b w.shared w.ledgers (in_flight_of w.in_flight) e f
          k.holds k.captured in
      record { holds = holds; ledger = k.ledger; captured = captured; apart = k.apart }
  Step-IsKept (passivates path fails w e) k =
      unlocked w (passivated d c path fails w.shared).0 w.ledgers e
        (passivated-Holds d c path fails w.shared w.ledgers k.holds).0 k.ledger
  Step-IsKept (purges path fails w e) k =
      unlocked w (purge d c path fails w.shared).0 (purged fails path w.ledgers) e
        (purge-Holds d c path fails w.shared w.ledgers k.holds).0
        (purged-IsLedger fails path w.ledgers k.ledger)

  pub Steps-IsKept : {w w' : World} → Steps w w' → IsKept w → IsKept w'
  Steps-IsKept starts k = k
  Steps-IsKept (goes_on run step) k = Step-IsKept step (Steps-IsKept run k)

  -- A fresh store over a database that holds the ledgers.
  pub build-IsKept :
      (db : Db) (ledgers : ActorPath → Ledger P S)
      → ((q : ActorPath) → IsStored d c q db (ledgers q))
      → ((q : ActorPath) → IsLedger (ledgers q))
      → IsKept (record { shared = build d c db; in_flight = none; ledgers = ledgers })
  unfolding build
  build-IsKept db ledgers h l = record {
    holds = λ q. cold refl (h q);
    ledger = l;
    captured = tt;
    apart = tt;
  }
