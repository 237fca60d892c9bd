-- ===== src/Kernel/Lifetime/DoorState.antt =====
-- A step of src/kernel.rs neither opens nor closes the actor's inbox.
use trouper.Prelude.{
  ℕ, ◌≡◌, refl, ◌∙◌, inl, inr, Bool, true, List, [], ◌∷◌, IfReturns, IfReturns-bind, IfReturns-mono,
  IfReturns-if, IfReturns-any, Option-cases, Bool-cases, leb,
}
use trouper.Journal.{Event, SeqNo}
use trouper.Envelope.{Envelope}
use trouper.Actor.{EventSourced}
use trouper.Inbox.{Inbox, claim_up_to, claim_slots, restore_claims, restore_slots, commit_through}
use trouper.Inbox.Commits.{commit_each}
use trouper.Kernel.Outbox.{Intent}
use trouper.Kernel.Snapshot.{maybe_snapshot}
use trouper.Kernel.Decide.{
  Cell, EsLoop, Step, append_stage, Appended-cases, decide_all, declared_events, undeclared_letters,
}
use trouper.Kernel.Step.{
  step_es, claimed_step, commit_step, finish_step, crash_out, drop_guard, with_letters,
}

module _ {E : Type 0} where
  claim_up_to-opened :
      (n : ℕ) (q : Inbox E) → IfReturns (λ r. r.0.opened ≡ q.opened) (claim_up_to n q)
  unfolding claim_up_to
  claim_up_to-opened n q =
      IfReturns-bind (λ _. Unit {0}) (λ r. r.0.opened ≡ q.opened) (claim_slots n q.cursor 0 q.queue)
        _ (IfReturns-any _) (λ r _. refl)

  restore_claims-opened :
      (batch : List (ℕ × E)) (q : Inbox E)
      → IfReturns (λ r. r.0.opened ≡ q.opened) (restore_claims batch q)
  unfolding restore_claims
  restore_claims-opened batch q =
      IfReturns-bind (λ _. Unit {0}) (λ r. r.0.opened ≡ q.opened)
        (restore_slots q.cursor batch q.queue) _ (IfReturns-any _) (λ r _. refl)

  commit_through-opened :
      (offset : ℕ) (q : Inbox E) → IfReturns (λ r. r.0.opened ≡ q.opened) (commit_through offset q)
  unfolding commit_through
  commit_through-opened offset q =
      IfReturns-if (λ r. r.0.opened ≡ q.opened) (leb q.next_offset offset) _ _ (λ _. tt) (λ _. refl)

  commit_each-opened :
      (batch : List (ℕ × E)) (q : Inbox E)
      → IfReturns (λ r. r.0.opened ≡ q.opened) (commit_each batch q)
  unfolding commit_each
  commit_each-opened [] q = refl
  commit_each-opened ((offset, e) ∷ batch) q =
      IfReturns-bind (λ r. r.0.opened ≡ q.opened) (λ r. r.0.opened ≡ q.opened)
        (commit_through offset q) _ (commit_through-opened offset q)
        (λ r h.
          IfReturns-bind (λ s. s.0.opened ≡ r.0.opened) (λ s. s.0.opened ≡ q.opened)
            (commit_each batch r.0) _ (commit_each-opened batch r.0) (λ s g. g ∙ h))

module _ {P S : Type 0} (a : EventSourced P S) where
  abbrev KeepsDoor : Bool → Cell a × Step → Type 0
  KeepsDoor b r = r.0.inbox.opened ≡ b

  drop_guard-KeepsDoor :
      (batch : List (ℕ × Envelope P)) (w : Cell a)
      → IfReturns (λ w'. w'.inbox.opened ≡ w.inbox.opened) (drop_guard a batch w)
  unfolding drop_guard
  drop_guard-KeepsDoor batch w =
      IfReturns-if (λ w'. w'.inbox.opened ≡ w.inbox.opened) w.is_stopping _ _ (λ _. refl)
        (λ _.
          IfReturns-bind (λ r. r.0.opened ≡ w.inbox.opened) (λ w'. w'.inbox.opened ≡ w.inbox.opened)
            (restore_claims batch w.inbox) _ (restore_claims-opened batch w.inbox) (λ r h. h))

  crash_out-KeepsDoor :
      (batch : List (ℕ × Envelope P)) (w : Cell a)
      → IfReturns (KeepsDoor w.inbox.opened) (crash_out a batch w)
  unfolding crash_out
  crash_out-KeepsDoor batch w =
      IfReturns-bind (λ w'. w'.inbox.opened ≡ w.inbox.opened) (KeepsDoor w.inbox.opened)
        (drop_guard a batch (record w { is_crashed = true })) _
        (drop_guard-KeepsDoor batch (record w { is_crashed = true })) (λ w' h. h)

  finish_step-KeepsDoor :
      (loop : EsLoop a) (now : ℕ) (outboxes : List (List (Intent P))) (events : List (Event P))
      (seqs : List SeqNo) (w : Cell a)
      → IfReturns (KeepsDoor w.inbox.opened) (finish_step a loop now outboxes events seqs w)
  unfolding finish_step
  finish_step-KeepsDoor loop now outboxes events seqs w =
      elim (Option-cases (maybe_snapshot loop.cadence seqs)) [
        | inl e ↦ rw (e, finish_step) tt
        | inr (anchors, e) ↦ rw (e, finish_step) refl
      ]

  commit_step-KeepsDoor :
      (loop : EsLoop a) (fails : Bool) (now : ℕ) (batch : List (ℕ × Envelope P))
      (outboxes : List (List (Intent P))) (events : List (Event P)) (w : Cell a)
      → IfReturns (KeepsDoor w.inbox.opened) (commit_step a loop fails now batch outboxes events w)
  unfolding commit_step
  commit_step-KeepsDoor loop fails now batch outboxes events w =
      let door = KeepsDoor w.inbox.opened in
      elim (Appended-cases (append_stage a fails batch events w)) [
        | inl e ↦ rw (e, commit_step) (crash_out-KeepsDoor batch w)
        | inr (inl (j, ingest, e)) ↦
            rw (e, commit_step)
              (IfReturns-bind (λ r. r.0.opened ≡ w.inbox.opened) door (commit_each batch w.inbox) _
                (commit_each-opened batch w.inbox) (λ r h. h))
        | inr (inr (j, ingest, seqs, e)) ↦
            rw (e, commit_step)
              (IfReturns-bind (λ r. r.0.opened ≡ w.inbox.opened) door (commit_each batch w.inbox) _
                (commit_each-opened batch w.inbox)
                (λ r h.
                  let w' : Cell a = record w { inbox = r.0; journal = j; next_ingest = ingest } in
                  IfReturns-mono door (finish_step a loop now outboxes events seqs w')
                    (finish_step-KeepsDoor loop now outboxes events seqs w') (λ s g. g ∙ h)))
      ]

  claimed_step-KeepsDoor :
      (loop : EsLoop a) (fails : Bool) (now : ℕ) (batch : List (ℕ × Envelope P)) (w : Cell a)
      → IfReturns (KeepsDoor w.inbox.opened) (claimed_step a loop fails now batch w)
  unfolding claimed_step
  claimed_step-KeepsDoor loop fails now [] w = refl
  claimed_step-KeepsDoor loop fails now (claim ∷ claims) w =
      let batch = claim ∷ claims in
      let d = decide_all a loop.command_entries w.live batch in
      elim (Bool-cases d.panicked) [
        | inl p ↦ rw (p, claimed_step) (crash_out-KeepsDoor batch (with_letters a d.letters w))
        | inr p ↦
            rw (p, claimed_step)
              (commit_step-KeepsDoor loop fails now batch d.outboxes
                (declared_events a loop d.recorded_events)
                (with_letters a (undeclared_letters a loop d.recorded_events)
                  (with_letters a d.letters w)))
      ]

  pub step_es-opened :
      (loop : EsLoop a) (fails : Bool) (now : ℕ) (w : Cell a)
      → IfReturns (λ r. r.0.inbox.opened ≡ w.inbox.opened) (step_es a loop fails now w)
  unfolding step_es
  step_es-opened loop fails now w =
      IfReturns-bind (λ r. r.0.opened ≡ w.inbox.opened) (KeepsDoor w.inbox.opened)
        (claim_up_to loop.step_batch w.inbox) _ (claim_up_to-opened loop.step_batch w.inbox)
        (λ r h.
          IfReturns-mono (KeepsDoor w.inbox.opened)
            (claimed_step a loop fails now r.1 (record w { inbox = r.0 }))
            (claimed_step-KeepsDoor loop fails now r.1 (record w { inbox = r.0 })) (λ s g. g ∙ h))
