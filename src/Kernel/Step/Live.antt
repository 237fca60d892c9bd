-- ===== src/Kernel/Step/Live.antt =====
-- The live state of `step_es` in src/kernel.rs against the journal's fold.
use mathlib.Core.List.{foldl-append}
use trouper.Prelude.{
  ℕ, ◌+◌, ◌<◌, ◌≡◌, refl, sym, ap, ◌∙◌, ◌⊎◌, inl, inr, Bool, true, false, none, List, [], ◌∷◌,
  foldl, append-nil, Option-cases, u64_mod, u64_max, length, returns, IfReturns, IfReturns-bind,
  IfReturns-if,
}
use trouper.Journal.{SeqNo, Event, snapshot, Journal, append_snapshot, events_of, append_events}
use trouper.Journal.Seqs.{IsDense, append_snapshot-IsDense, events_of-append}
use trouper.Journal.Append.{append_events-IsDense}
use trouper.Envelope.{Envelope}
use trouper.Actor.{EventSourced}
use trouper.Actor.Recovery.{fold}
use trouper.Inbox.{restore_claims}
use trouper.Inbox.Commits.{commit_each}
use trouper.Kernel.Outbox.{Intent}
use trouper.Kernel.Snapshot.{maybe_snapshot, snapshot_each, snapshot_now}
use trouper.Inbox.Claims.{IsSettled, batch_of, claim_up_to-IsSettled}
use trouper.Kernel.Step.Crash.{claimed_cell}
use trouper.Kernel.Decide.{
  same_origin, Step, crashed, refused, landed, Cell, EsLoop, append_stage, decide_all,
  declared_events, undeclared_letters,
}
use trouper.Kernel.Step.{
  step_es, with_letters, crash_out, drop_guard, finish_step, commit_step, claimed_step,
}
use trouper.Prelude.{IfReturns-any}

module _ {P S : Type 0} (a : EventSourced P S) where
  open a use {State, Args, restore, apply, capture}

  -- The live state is the fold of the journal, whose sequences are dense.
  pub record IsLive (args : Args) (w : Cell a) : Type 0 where
    pub folded : w.live ≡ fold a args w.journal
    pub is_dense : IsDense w.journal

  pub snapshot_each-IsDense :
      (now : ℕ) (st : State) (anchors : List ℕ) (j : Journal P S)
      → IsDense j
      → IsDense (snapshot_each a now st anchors j)
        × (events_of (snapshot_each a now st anchors j).entries ≡ events_of j.entries)
  unfolding snapshot_each snapshot_now append_snapshot
  snapshot_each-IsDense now st [] j d = (d, refl)
  snapshot_each-IsDense now st (x ∷ xs) j d = elim (Option-cases (capture st)) [
    | inl e ↦ rw (e, snapshot_each, snapshot_now) (snapshot_each-IsDense now st xs j d)
    | inr (blob, e) ↦
        let r =
          snapshot_each-IsDense now st xs (append_snapshot x blob now j)
            (append_snapshot-IsDense x blob now j d) in
        rw (e, snapshot_each, snapshot_now)
          (r.0, r.1 ∙ events_of-append j.entries (snapshot x blob ∷ []) ∙ append-nil _)
  ]

  abbrev LiveAfter : Args → Cell a × Step → Type 0
  LiveAfter args r = IsLive args r.0

  finish_step-IsLive :
      (args : Args) (loop : EsLoop a) (now : ℕ) (outboxes : List (List (Intent P)))
      (events : List (Event P)) (seqs : List SeqNo) (w : Cell a)
      → foldl apply w.live events ≡ fold a args w.journal
      → IsDense w.journal
      → IfReturns (LiveAfter args) (finish_step a loop now outboxes events seqs w)
  unfolding finish_step
  finish_step-IsLive args loop now outboxes events seqs w e d =
      elim (Option-cases (maybe_snapshot loop.cadence seqs)) [
        | inl m ↦ rw (m, finish_step) tt
        | inr (anchors, m) ↦
            let r = snapshot_each-IsDense now (foldl apply w.live events) anchors w.journal d in
            rw (m, finish_step)
              (record { folded = e ∙ ap (foldl apply (restore args)) (sym r.1); is_dense = r.0 })
      ]

  pub append_stage-unstamped :
      (fails : Bool) (batch : List (ℕ × Envelope P)) (events : List (Event P)) (w : Cell a)
      → same_origin a batch ≡ none
      → (append_stage a fails batch events w ≡ refused)
        ⊎ (append_stage a fails batch events w
            ≡ (let r = append_events events w.next_ingest w.journal in landed r.0 r.2 r.1))
  unfolding append_stage append_events
  append_stage-unstamped fails batch [] w o = inr refl
  append_stage-unstamped true batch (ev ∷ evs) w o = inl refl
  append_stage-unstamped false batch (ev ∷ evs) w o = inr (rw (o, append_stage) refl)

  crash_out-IsLive :
      (args : Args) (batch : List (ℕ × Envelope P)) (w : Cell a)
      → IsLive args w
      → IfReturns (LiveAfter args) (crash_out a batch w)
  unfolding crash_out drop_guard
  crash_out-IsLive args batch w l =
      IfReturns-bind (IsLive args) (LiveAfter args)
        (drop_guard a batch (record w { is_crashed = true })) (λ w'. returns (w', crashed))
        (IfReturns-if (IsLive args) w.is_stopping _ _
          (λ s. record { folded = l.folded; is_dense = l.is_dense })
          (λ s.
            IfReturns-bind (λ _. Unit {0}) (IsLive args) (restore_claims batch w.inbox)
              (λ r. returns (record w { inbox = r.0; is_crashed = true }))
              (IfReturns-any (restore_claims batch w.inbox))
              (λ r _. record { folded = l.folded; is_dense = l.is_dense })))
        (λ w' l'. l')

  commit_step-IsLive :
      (args : Args) (loop : EsLoop a) (fails : Bool) (now : ℕ) (batch : List (ℕ × Envelope P))
      (outboxes : List (List (Intent P))) (events : List (Event P)) (w : Cell a)
      → IsLive args w
      → same_origin a batch ≡ none
      → w.journal.event_count + length events < u64_max
      → w.next_ingest + length events < u64_mod
      → IfReturns (LiveAfter args) (commit_step a loop fails now batch outboxes events w)
  unfolding commit_step
  commit_step-IsLive args loop fails now batch outboxes events w l o f g =
      elim (append_stage-unstamped fails batch events w o) [
        | inl e ↦ rw (e, commit_step) (crash_out-IsLive args batch w l)
        | inr e ↦
            let r = append_events events w.next_ingest w.journal in
            let d = append_events-IsDense events w.next_ingest w.journal l.is_dense f g in
            rw (e, commit_step)
              (IfReturns-bind (λ _. Unit {0}) (LiveAfter args) (commit_each batch w.inbox)
                (λ c.
                  finish_step a loop now outboxes events r.1
                    (record w { inbox = c.0; journal = r.0; next_ingest = r.2 }))
                (IfReturns-any (commit_each batch w.inbox))
                (λ c _.
                  finish_step-IsLive args loop now outboxes events r.1
                    (record w { inbox = c.0; journal = r.0; next_ingest = r.2 })
                    (ap (λ st. foldl apply st events) l.folded
                      ∙ sym (
                          ap (foldl apply (restore args)) d.1
                          ∙ foldl-append apply (restore args) (events_of w.journal.entries) events))
                    d.0))
      ]

  -- The events that a step journals out of a claimed batch.
  abbrev pub events_from : EsLoop a → State → List (ℕ × Envelope P) → List (Event P)
  events_from loop st batch =
      declared_events a loop (decide_all a loop.command_entries st batch).recorded_events

  claimed_step-IsLive :
      (args : Args) (loop : EsLoop a) (fails : Bool) (now : ℕ) (batch : List (ℕ × Envelope P))
      (w : Cell a)
      → IsLive args w
      → same_origin a batch ≡ none
      → w.journal.event_count + length (events_from loop w.live batch) < u64_max
      → w.next_ingest + length (events_from loop w.live batch) < u64_mod
      → IfReturns (LiveAfter args) (claimed_step a loop fails now batch w)
  unfolding claimed_step
  claimed_step-IsLive args loop fails now [] w l o f g = l
  claimed_step-IsLive args loop fails now (x ∷ xs) w l o f g =
      let d = decide_all a loop.command_entries w.live (x ∷ xs) in
      IfReturns-if (LiveAfter args) d.panicked _ _
        (λ p.
          crash_out-IsLive args (x ∷ xs) (with_letters a d.letters w)
            (record { folded = l.folded; is_dense = l.is_dense }))
        (λ p.
          commit_step-IsLive args loop fails now (x ∷ xs) d.outboxes
            (declared_events a loop d.recorded_events)
            (with_letters a (undeclared_letters a loop d.recorded_events)
              (with_letters a d.letters w))
            (record { folded = l.folded; is_dense = l.is_dense }) o f g)

  -- Live and journal agree, step by step: if the live state is the fold of a dense journal before a
  -- step whose claims are not all stamped with one recorded fact, and the counters do not run out,
  -- then it is after it, whatever the step came to: handlers that decide, fail to decode or panic, an
  -- append that lands or is refused, a snapshot or none.
  pub step_es-IsLive :
      (args : Args) (loop : EsLoop a) (fails : Bool) (now : ℕ) (w : Cell a) (es : List (Envelope P))
      → IsSettled w.inbox es
      → IsLive args w
      → let batch = batch_of loop.step_batch w.inbox.cursor es in
        let count = length (events_from loop w.live batch) in
        same_origin a batch ≡ none
        → w.journal.event_count + count < u64_max
        → w.next_ingest + count < u64_mod
        → IfReturns (λ (r : Cell a × Step). IsLive args r.0) (step_es a loop fails now w)
  unfolding step_es
  step_es-IsLive args loop fails now w es s l o f g =
      rw (claim_up_to-IsSettled loop.step_batch w.inbox es s) (
        claimed_step-IsLive args loop fails now (batch_of loop.step_batch w.inbox.cursor es)
          (claimed_cell a loop.step_batch es w.dead_letters w)
          (record { folded = l.folded; is_dense = l.is_dense }) o f g)
