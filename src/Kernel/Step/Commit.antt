-- ===== src/Kernel/Step/Commit.antt =====
-- The progress of `step_es` in src/kernel.rs: the step returns, and what became of the inbox.
use trouper.Prelude.{
  if◌then◌else◌, ℕ, zero, suc, ◌+◌, ◌<◌, min, ◌≡◌, refl, sym, ap, subst, ◌∙◌, ◌≢◌, ◌⊎◌, inl, inr,
  Bool, true, false, none, some, List, [], ◌∷◌, ◌++◌, arith, ltb, ltb→lt, Bool-cases, u64_mod,
  u64_max, length, drop, returns,
}
use trouper.Journal.{SeqNo, Event, append_events}
use trouper.Journal.Append.{count_from, append_events-IsDense}
use trouper.Journal.Seqs.{IsDense}
use trouper.Envelope.{Envelope}
use trouper.Actor.{EventSourced}
use trouper.Inbox.{Inbox}
use trouper.Inbox.Claims.{IsSettled, batch_of, numbered, claim_up_to-IsSettled}
use trouper.Inbox.Commits.{commit_each-claimed, length-drop-min}
use trouper.Kernel.Outbox.{DeadLetter, Intent, flush_each}
use trouper.Kernel.Snapshot.{SnapshotCadence, off, messages, time, maybe_snapshot, anchors_between}
use trouper.Kernel.Snapshot.Faults.{batch-anchors, last_of-count_from}
use trouper.Kernel.Decide.{
  same_origin, Step, crashed, Cell, EsLoop, decide_all, declared_events, undeclared_letters, stop,
  work,
}
use trouper.Kernel.Step.{finished, finish_step, commit_step, claimed_step, step_es}
use trouper.Kernel.Step.Crash.{claimed_cell, crash_out-claimed, ends-NotCrashed}
use trouper.Kernel.Step.Live.{events_from, append_stage-unstamped}

-- The snapshot arithmetic of a message cadence stays below the end of the 64-bit range.
abbrev pub FitsCadence : SnapshotCadence → ℕ → Type 0
FitsCadence off total = Unit
FitsCadence (messages n) total = total + n < u64_max
FitsCadence (time interval) total = Unit

short-anchors :
    (n c k : ℕ)
    → suc k < n
    → c + suc k + n < u64_max
    → maybe_snapshot (messages n) (count_from c (suc k)) ≡ some []
unfolding maybe_snapshot anchors_between
short-anchors n c k b f = ground (arith, last_of-count_from (c + 1) k c)

-- The snapshot loop ends.
maybe_snapshot-count_from :
    (cadence : SnapshotCadence) (c k : ℕ)
    → FitsCadence cadence (c + k)
    → (l : List ℕ) × (maybe_snapshot cadence (count_from c k) ≡ some l)
unfolding maybe_snapshot
maybe_snapshot-count_from off c k f = ([], refl)
maybe_snapshot-count_from (time interval) c k f = ([], refl)
maybe_snapshot-count_from (messages n) c zero f = ([], refl)
maybe_snapshot-count_from (messages zero) c (suc k) f = ([], refl)
maybe_snapshot-count_from (messages (suc n)) c (suc k) f = elim (Bool-cases (ltb (suc k) (suc n))) [
  | inl b ↦ ([], short-anchors (suc n) c k (ltb→lt (suc k) (suc n) b) f)
  | inr b ↦ let r = batch-anchors (suc n) c k (omega arith) (ground arith) f in (r.0 ∷ r.1, r.2)
]

module _ {P S : Type 0} (a : EventSourced P S) where
  open a use {State, Args, restore, apply, capture}

  finish_step-returns :
      (loop : EsLoop a) (now : ℕ) (outboxes : List (List (Intent P))) (events : List (Event P))
      (seqs : List SeqNo) (w : Cell a) (anchors : List ℕ)
      → maybe_snapshot loop.cadence seqs ≡ some anchors
      → (r : Cell a × Step) × (finish_step a loop now outboxes events seqs w ≡ returns r)
        × (r.0.inbox ≡ w.inbox)
        × (r.1 ≢ crashed)
  unfolding finish_step
  finish_step-returns loop now outboxes events seqs w anchors e = (
    (
      finished a loop now outboxes events seqs anchors w,
      if (flush_each loop.declared_emits loop.own_path outboxes).stop then stop else work,
    ),
    rw (e, finish_step) refl,
    refl,
    ends-NotCrashed a (flush_each loop.declared_emits loop.own_path outboxes).stop,
  )

  -- The inbox after a step of a batch of `n`: as before a crash, else without the claimed messages.
  abbrev pub Progress : ℕ → List (Envelope P) → Cell a → Cell a × Step → Type 0
  Progress n es w r =
      ((r.1 ≡ crashed) × (r.0.inbox ≡ w.inbox))
      ⊎ ((r.1 ≢ crashed)
          × IsSettled r.0.inbox (drop n es)
          × (r.0.inbox.cursor ≡ w.inbox.cursor + min n (length es)))

  commit_step-Progress :
      (loop : EsLoop a) (fails : Bool) (now n : ℕ) (w : Cell a) (es : List (Envelope P))
      (letters : List (DeadLetter P)) (outboxes : List (List (Intent P))) (events : List (Event P))
      → IsSettled w.inbox es
      → w.is_stopping ≡ false
      → IsDense w.journal
      → same_origin a (batch_of n w.inbox.cursor es) ≡ none
      → w.journal.event_count + length events < u64_max
      → FitsCadence loop.cadence (w.journal.event_count + length events)
      → w.next_ingest + length events < u64_mod
      → (r : Cell a × Step) × (commit_step a loop fails now
            (batch_of n w.inbox.cursor es)
            outboxes
            events
            (claimed_cell a n es letters w)
          ≡ returns r)
        × Progress n es w r
  unfolding commit_step finish_step
  commit_step-Progress loop fails now n w es letters outboxes events s h d o f fc g =
      let claims = claimed_cell a n es letters w in
      let batch = batch_of n w.inbox.cursor es in
      elim (append_stage-unstamped a fails batch events claims o) [
        | inl e ↦ (
          (record w { is_crashed = true; dead_letters = letters }, crashed),
          rw (e, commit_step) (crash_out-claimed a n w es letters s h),
          inl (refl, refl),
        )
        | inr e ↦
            let r = append_events events w.next_ingest w.journal in
            let m = append_events-IsDense events w.next_ingest w.journal d f g in
            let (anchors, taken) =
              maybe_snapshot-count_from loop.cadence w.journal.event_count (length events) fc in
            let c = commit_each-claimed n w.inbox.cursor claims.inbox es refl refl s.ends s.fits in
            let q : Inbox (Envelope P) = record w.inbox {
              queue = numbered (w.inbox.cursor + min n (length es)) (drop n es);
              cursor = w.inbox.cursor + min n (length es);
            } in
            let fin =
              finish_step-returns loop now outboxes events r.1
                (record claims { inbox = q; journal = r.0; next_ingest = r.2 }) anchors
                (ap (maybe_snapshot loop.cadence) m.2 ∙ taken) in
            let settled : IsSettled q (drop n es) = record {
              holds = refl;
              ends = omega (arith, length-drop-min n es, s.ends);
              fits = s.fits;
            } in
            (
              fin.0,
              rw (e, commit_step, c) fin.1,
              inr (
                fin.3,
                subst (λ i. IsSettled i (drop n es)) (sym fin.2) settled,
                ap (λ (i : Inbox (Envelope P)). i.cursor) fin.2,
              ),
            )
      ]

  claimed_step-Progress :
      (loop : EsLoop a) (fails : Bool) (now n : ℕ) (w : Cell a) (es : List (Envelope P))
      → IsSettled w.inbox es
      → w.is_stopping ≡ false
      → IsDense w.journal
      → let batch = batch_of n w.inbox.cursor es in
        let count = length (events_from a loop w.live batch) in
        same_origin a batch ≡ none
        → w.journal.event_count + count < u64_max
        → FitsCadence loop.cadence (w.journal.event_count + count)
        → w.next_ingest + count < u64_mod
        → (r : Cell a × Step) × (claimed_step a loop fails now batch
              (claimed_cell a n es w.dead_letters w)
            ≡ returns r)
          × Progress n es w r
  unfolding claimed_step
  claimed_step-Progress loop fails now zero w es s h d o f fc g =
      (_, refl, inr (λ e. cc, record { holds = refl; ends = s.ends; fits = s.fits }, omega arith))
  claimed_step-Progress loop fails now (suc n) w [] s h d o f fc g =
      (_, refl, inr (λ e. cc, record { holds = refl; ends = s.ends; fits = s.fits }, omega arith))
  claimed_step-Progress loop fails now (suc n) w (x ∷ es) s h d o f fc g =
      let decided =
        decide_all a loop.command_entries w.live (batch_of (suc n) w.inbox.cursor (x ∷ es)) in
      elim (Bool-cases decided.panicked) [
        | inl p ↦ (
          (
            record w { is_crashed = true; dead_letters = w.dead_letters ++ decided.letters },
            crashed,
          ),
          rw (p, claimed_step)
              (crash_out-claimed a (suc n) w (x ∷ es) (w.dead_letters ++ decided.letters) s h),
          inl (refl, refl),
        )
        | inr p ↦
            let r =
              commit_step-Progress loop fails now (suc n) w (x ∷ es)
                ((w.dead_letters ++ decided.letters)
                  ++ undeclared_letters a loop decided.recorded_events)
                decided.outboxes (declared_events a loop decided.recorded_events) s h d o f fc g in
            (r.0, rw (p, claimed_step) r.1, r.2)
      ]

  -- A step of a running actor returns, without a panic of the inbox or an endless snapshot loop. Either
  -- it crashed and the inbox is as before, or it consumed exactly the claimed messages, up to
  -- `step_batch` of them from the front, and the cursor stands behind them. This is for an inbox
  -- that no other step holds claims of, a batch whose claims are not all stamped with one recorded
  -- fact, and counters that do not run out.
  pub step_es-Progress :
      (loop : EsLoop a) (fails : Bool) (now : ℕ) (w : Cell a) (es : List (Envelope P))
      → IsSettled w.inbox es
      → w.is_stopping ≡ false
      → IsDense w.journal
      → let batch = batch_of loop.step_batch w.inbox.cursor es in
        let count = length (events_from a loop w.live batch) in
        same_origin a batch ≡ none
        → w.journal.event_count + count < u64_max
        → FitsCadence loop.cadence (w.journal.event_count + count)
        → w.next_ingest + count < u64_mod
        → (r : Cell a × Step) × (step_es a loop fails now w ≡ returns r)
          × Progress loop.step_batch es w r
  unfolding step_es
  step_es-Progress loop fails now w es s h d o f fc g =
      let r = claimed_step-Progress loop fails now loop.step_batch w es s h d o f fc g in
      (r.0, rw (claim_up_to-IsSettled loop.step_batch w.inbox es s, step_es) r.1, r.2)
