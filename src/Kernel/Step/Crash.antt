-- ===== src/Kernel/Step/Crash.antt =====
-- The error paths of `step_es` in src/kernel.rs: a handler's panic and a refused append.
use trouper.Prelude.{
  ℕ, zero, suc, ◌≡◌, refl, ap, subst, ◌≢◌, inl, inr, Bool, true, false, List, [], ◌∷◌, ◌++◌,
  if◌then◌else◌, Option-cases, Run, returns, panics, ◌>>=◌, IfReturns, IfReturns-bind,
  IfReturns-any, IfReturns-mono, IfReturns-if,
}
use trouper.Envelope.{Envelope}
use trouper.Inbox.Commits.{commit_each}
use trouper.Actor.{EventSourced}
use trouper.Inbox.{Inbox, restore_claims}
use trouper.Inbox.Claims.{IsSettled, batch_of, claimed_view, claim_up_to-IsSettled, restore-claim}
use trouper.Journal.{Event, SeqNo}
use trouper.Kernel.Outbox.{DeadLetter, Intent, flush_each}
use trouper.Kernel.Decide.{
  Appended-cases, declared_events, undeclared_letters, decide_all, append_stage, Step, crashed,
  Cell, EsLoop, stop, work,
}
use trouper.Kernel.Step.{
  step_es, claimed_step, commit_step, crash_out, drop_guard, finish_step, maybe_snapshot,
}

module _ {P S : Type 0} (a : EventSourced P S) where
  -- Nothing of the step is visible but the crash itself and dead letters.
  pub record IsRolledBack (w w' : Cell a) : Type 0 where
    pub same_inbox : w'.inbox ≡ w.inbox
    pub same_journal : w'.journal ≡ w.journal
    pub same_ingest : w'.next_ingest ≡ w.next_ingest
    pub same_live : w'.live ≡ w.live
    pub same_effects : w'.effects ≡ w.effects
    pub same_broadcasts : w'.broadcasts ≡ w.broadcasts
    pub marked : w'.is_crashed ≡ true

  restore-claimed :
      (n : ℕ) (q : Inbox (Envelope P)) (es : List (Envelope P))
      → IsSettled q es
      → (restore_claims (batch_of n q.cursor es) (record q { queue = claimed_view n q.cursor es })
          >>= λ s. returns s.0)
        ≡ returns q
  restore-claimed n q es s =
      subst
        (λ (r : Run (Inbox (Envelope P) × List (ℕ × Envelope P) × ℕ)).
          (r >>= λ r. restore_claims r.1 r.0 >>= λ s. returns s.0) ≡ returns q)
        (claim_up_to-IsSettled n q es s) (restore-claim n q es s)

  abbrev pub claimed_cell : ℕ → List (Envelope P) → List (DeadLetter P) → Cell a → Cell a
  claimed_cell n es letters w = record w {
    inbox = record w.inbox { queue = claimed_view n w.inbox.cursor es };
    dead_letters = letters;
  }

  restored :
      {C : Type 0} (f : Inbox (Envelope P) → C) (q : Inbox (Envelope P))
      (m : Run (Inbox (Envelope P) × Bool))
      → (m >>= λ s. returns s.0) ≡ returns q
      → (m >>= λ r. returns (f r.0)) ≡ returns (f q)
  restored f q (returns r) h = ap (λ m. m >>= λ i. returns (f i)) h
  restored f q panics h = cc

  pub crash_out-claimed :
      (n : ℕ) (w : Cell a) (es : List (Envelope P)) (letters : List (DeadLetter P))
      → IsSettled w.inbox es
      → w.is_stopping ≡ false
      → crash_out a (batch_of n w.inbox.cursor es) (claimed_cell n es letters w)
        ≡ returns (record w { is_crashed = true; dead_letters = letters }, crashed)
  unfolding crash_out drop_guard
  crash_out-claimed n w es letters s h =
      rw
        (
          h,
          restored
              (λ i. record w {
                inbox = i;
                is_crashed = true;
                is_stopping = false;
                dead_letters = letters;
              })
              w.inbox
              (restore_claims (batch_of n w.inbox.cursor es)
                (record w.inbox { queue = claimed_view n w.inbox.cursor es }))
              (restore-claimed n w.inbox es s),
        )
        refl

  abbrev NotCrashed : Cell a × Step → Type 0
  NotCrashed r = r.1 ≢ crashed

  pub ends-NotCrashed : (b : Bool) → (if b then stop else work) ≢ crashed
  ends-NotCrashed true e = cc
  ends-NotCrashed false e = cc

  finish_step-NotCrashed :
      (loop : EsLoop a) (now : ℕ) (outboxes : List (List (Intent P))) (events : List (Event P))
      (seqs : List SeqNo) (w : Cell a)
      → IfReturns NotCrashed (finish_step a loop now outboxes events seqs w)
  unfolding finish_step
  finish_step-NotCrashed loop now outboxes events seqs w =
      elim (Option-cases (maybe_snapshot loop.cadence seqs)) [
        | inl none_taken ↦ rw (none_taken, finish_step) tt
        | inr (anchors, e) ↦
            rw (e, finish_step)
              (ends-NotCrashed (flush_each loop.declared_emits loop.own_path outboxes).stop)
      ]

  abbrev IsRolledBackIf : Cell a → Cell a × Step → Type 0
  IsRolledBackIf w r = r.1 ≡ crashed → IsRolledBack w r.0

  crash_out-IsRolledBack :
      (n : ℕ) (w : Cell a) (es : List (Envelope P)) (letters : List (DeadLetter P))
      → IsSettled w.inbox es
      → w.is_stopping ≡ false
      → IfReturns
          (IsRolledBackIf w)
          (crash_out a (batch_of n w.inbox.cursor es) (claimed_cell n es letters w))
  crash_out-IsRolledBack n w es letters s h = rw (crash_out-claimed n w es letters s h) (λ e.
      record {
        same_inbox = refl;
        same_journal = refl;
        same_ingest = refl;
        same_live = refl;
        same_effects = refl;
        same_broadcasts = refl;
        marked = refl;
      })

  commit_step-IsRolledBack :
      (loop : EsLoop a) (fails : Bool) (now n : ℕ) (w : Cell a) (es : List (Envelope P))
      (letters : List (DeadLetter P)) (outboxes : List (List (Intent P))) (events : List (Event P))
      → IsSettled w.inbox es
      → w.is_stopping ≡ false
      → IfReturns (IsRolledBackIf w) (
          commit_step a loop fails now
            (batch_of n w.inbox.cursor es)
            outboxes
            events
            (claimed_cell n es letters w))
  unfolding commit_step
  commit_step-IsRolledBack loop fails now n w es letters outboxes events s h =
      let claims = claimed_cell n es letters w in
      let batch = batch_of n w.inbox.cursor es in
      elim (Appended-cases (append_stage a fails batch events claims)) [
        | inl e ↦ rw (e, commit_step) (crash_out-IsRolledBack n w es letters s h)
        | inr (inl (j, ingest, e)) ↦
            rw (e, commit_step)
              (IfReturns-bind (λ _. Unit {0}) (IsRolledBackIf w) (commit_each batch claims.inbox)
                (λ r.
                  returns (record claims { inbox = r.0; journal = j; next_ingest = ingest }, work))
                (IfReturns-any (commit_each batch claims.inbox)) (λ r _ c. cc))
        | inr (inr (j, ingest, seqs, e)) ↦
            rw (e, commit_step)
              (IfReturns-bind (λ _. Unit {0}) (IsRolledBackIf w) (commit_each batch claims.inbox)
                (λ r.
                  finish_step a loop now outboxes events seqs
                    (record claims { inbox = r.0; journal = j; next_ingest = ingest }))
                (IfReturns-any (commit_each batch claims.inbox))
                (λ r _.
                  IfReturns-mono (IsRolledBackIf w)
                    (finish_step a loop now outboxes events seqs
                      (record claims { inbox = r.0; journal = j; next_ingest = ingest }))
                    (finish_step-NotCrashed loop now outboxes events seqs
                      (record claims { inbox = r.0; journal = j; next_ingest = ingest }))
                    (λ r' k c. absurd (k c))))
      ]

  claimed_step-IsRolledBack :
      (loop : EsLoop a) (fails : Bool) (now n : ℕ) (w : Cell a) (es : List (Envelope P))
      → IsSettled w.inbox es
      → w.is_stopping ≡ false
      → IfReturns (IsRolledBackIf w) (
          claimed_step a loop fails now
            (batch_of n w.inbox.cursor es)
            (claimed_cell n es w.dead_letters w))
  unfolding claimed_step
  claimed_step-IsRolledBack loop fails now zero w es s h = λ c. cc
  claimed_step-IsRolledBack loop fails now (suc n) w [] s h = λ c. cc
  claimed_step-IsRolledBack loop fails now (suc n) w (x ∷ es) s h =
      let d = decide_all a loop.command_entries w.live (batch_of (suc n) w.inbox.cursor (x ∷ es)) in
      IfReturns-if (IsRolledBackIf w) d.panicked _ _
        (λ p. crash_out-IsRolledBack (suc n) w (x ∷ es) (w.dead_letters ++ d.letters) s h)
        (λ p.
          commit_step-IsRolledBack loop fails now (suc n) w (x ∷ es)
            ((w.dead_letters ++ d.letters) ++ undeclared_letters a loop d.recorded_events)
            d.outboxes (declared_events a loop d.recorded_events) s h)

  -- A step that crashes, by a handler's panic or because the store refused the append, changes nothing
  -- of a running actor: every claimed message is back in its slot, and neither the journal, the
  -- arrival counter, the live state nor anything sent or broadcast moved. The crash mark is
  -- set, and letters may have gone to the dead letters.
  pub step_es-IsRolledBack :
      (loop : EsLoop a) (fails : Bool) (now : ℕ) (w w' : Cell a) (es : List (Envelope P))
      → IsSettled w.inbox es
      → w.is_stopping ≡ false
      → step_es a loop fails now w ≡ returns (w', crashed)
      → IsRolledBack w w'
  unfolding step_es
  step_es-IsRolledBack loop fails now w w' es s h e =
      subst (IfReturns (IsRolledBackIf w)) e
        (rw (claim_up_to-IsSettled loop.step_batch w.inbox es s)
          (claimed_step-IsRolledBack loop fails now loop.step_batch w es s h))
        refl
