-- ===== src/Kernel/Lifetime/Drained.antt =====
-- How the drain of `maybe_passivate` in src/kernel.rs ends.
use trouper.Prelude.{
  ℕ, zero, suc, ◌+◌, ◌≤◌, ◌<◌, min, ◌≡◌, ◌≢◌, ◌⊎◌, inl, inr, refl, sym, ap, subst, ◌∙◌, Bool, true,
  false, Option, none, some, List, [], ◌∷◌, ◌++◌, append_assoc, arith, length, take, drop,
  length-append, take-append-drop, returns, IfReturns, IfReturns-bind, IfReturns-any, Option-cases,
  Bool-cases, ==_iff, if◌then◌else◌,
}
use trouper.Journal.{Event, SeqNo}
use trouper.Envelope.{Envelope}
use trouper.Actor.{EventSourced}
use trouper.Inbox.{Inbox, close, peek}
use trouper.Inbox.Claims.{IsSettled, batch_of, claim_up_to-IsSettled}
use trouper.Inbox.Commits.{commit_each}
use trouper.Kernel.Outbox.{flush_each, Intent}
use trouper.Kernel.Snapshot.{maybe_snapshot}
use trouper.Kernel.Decide.{
  Cell, EsLoop, Step, decide_all, declared_events, undeclared_letters, work, idle, crashed, stop,
  append_stage, Appended-cases,
}
use trouper.Kernel.Step.{
  step_es, claimed_step, commit_step, finish_step, crash_out, drop_guard, with_letters,
}
use trouper.Kernel.Step.Crash.{step_es-IsRolledBack}
use trouper.Kernel.Step.Commit.{Progress, step_es-Progress}
use trouper.Kernel.Lifetime.{Fits, queued}
use trouper.Kernel.Lifetime.DoorState.{step_es-opened}
use trouper.Kernel.Lifetime.Sound.{IsSound, step_es-IsSound, queued-numbered}
use trouper.Kernel.Lifetime.Passivation.{
  is_due, Turns, drain_mail, stays, passivates, maybe_passivate, IsCalm,
}

peek-IsSettled :
    {E : Type 0} (q : Inbox E) (e : E) (es : List E)
    → IsSettled q (e ∷ es)
    → peek q ≡ returns (some e)
unfolding peek
peek-IsSettled q e es s = rw (s.holds, (==_iff q.cursor q.cursor).1 refl) refl

peek-nothing : {E : Type 0} (q : Inbox E) → IsSettled q [] → peek q ≡ returns none
unfolding peek
peek-nothing q s = rw s.holds refl

Step-cases : (o : Step) → (o ≡ work) ⊎ ((o ≡ idle) ⊎ ((o ≡ crashed) ⊎ (o ≡ stop)))
Step-cases work = inl refl
Step-cases idle = inr (inl refl)
Step-cases crashed = inr (inr (inl refl))
Step-cases stop = inr (inr (inr refl))

length-take : {A : Type 0} (n : ℕ) (xs : List A) → length (take n xs) ≡ min n (length xs)
length-take zero xs = omega arith
length-take (suc n) [] = omega arith
length-take (suc n) (x ∷ xs) = ap suc (length-take n xs) ∙ omega arith

length-drop-le : {A : Type 0} (n : ℕ) (xs : List A) → length (drop n xs) ≤ length xs
length-drop-le zero xs = omega arith
length-drop-le (suc n) [] = omega arith
length-drop-le (suc n) (x ∷ xs) = omega (arith, length-drop-le n xs)

module _ {P S : Type 0} (a : EventSourced P S) where
  open a use {Args}

  abbrev IsBusy : Cell a × Step → Type 0
  IsBusy r = r.1 ≢ idle

  crash_out-IsBusy :
      (batch : List (ℕ × Envelope P)) (w : Cell a) → IfReturns IsBusy (crash_out a batch w)
  unfolding crash_out
  crash_out-IsBusy batch w =
      IfReturns-bind (λ _. Unit {0}) IsBusy (drop_guard a batch (record w { is_crashed = true })) _
        (IfReturns-any _) (λ w' _ e. cc)

  ends-IsBusy : (b : Bool) → (if b then stop else work) ≢ idle
  ends-IsBusy true e = cc
  ends-IsBusy false e = cc

  finish_step-IsBusy :
      (loop : EsLoop a) (now : ℕ) (outboxes : List (List (Intent P))) (events : List (Event P))
      (seqs : List SeqNo) (w : Cell a)
      → IfReturns IsBusy (finish_step a loop now outboxes events seqs w)
  unfolding finish_step
  finish_step-IsBusy loop now outboxes events seqs w =
      elim (Option-cases (maybe_snapshot loop.cadence seqs)) [
        | inl none_taken ↦ rw (none_taken, finish_step) tt
        | inr (anchors, e) ↦
            rw (e, finish_step)
              (ends-IsBusy (flush_each loop.declared_emits loop.own_path outboxes).stop)
      ]

  commit_step-IsBusy :
      (loop : EsLoop a) (fails : Bool) (now : ℕ) (batch : List (ℕ × Envelope P))
      (outboxes : List (List (Intent P))) (events : List (Event P)) (w : Cell a)
      → IfReturns IsBusy (commit_step a loop fails now batch outboxes events w)
  unfolding commit_step
  commit_step-IsBusy loop fails now batch outboxes events w =
      elim (Appended-cases (append_stage a fails batch events w)) [
        | inl e ↦ rw (e, commit_step) (crash_out-IsBusy batch w)
        | inr (inl (j, ingest, e)) ↦
            rw (e, commit_step)
              (IfReturns-bind (λ _. Unit {0}) IsBusy (commit_each batch w.inbox) _ (IfReturns-any _)
                (λ r _ c. cc))
        | inr (inr (j, ingest, seqs, e)) ↦
            rw (e, commit_step)
              (IfReturns-bind (λ _. Unit {0}) IsBusy (commit_each batch w.inbox) _ (IfReturns-any _)
                (λ r _. finish_step-IsBusy loop now outboxes events seqs _))
      ]

  claimed_step-IsBusy :
      (loop : EsLoop a) (fails : Bool) (now n k : ℕ) (w : Cell a) (e : Envelope P)
      (es : List (Envelope P))
      → 1 ≤ n
      → IfReturns IsBusy (claimed_step a loop fails now (batch_of n k (e ∷ es)) w)
  unfolding claimed_step
  claimed_step-IsBusy loop fails now zero k w e es b = absurd (omega arith)
  claimed_step-IsBusy loop fails now (suc n) k w e es b =
      let batch = batch_of (suc n) k (e ∷ es) in
      let d = decide_all a loop.command_entries w.live batch in
      elim (Bool-cases d.panicked) [
        | inl p ↦ rw (p, claimed_step) (crash_out-IsBusy batch (with_letters a d.letters w))
        | inr p ↦
            rw (p, claimed_step)
              (commit_step-IsBusy loop fails now batch d.outboxes
                (declared_events a loop d.recorded_events)
                (with_letters a (undeclared_letters a loop d.recorded_events)
                  (with_letters a d.letters w)))
      ]

  -- A step with mail in the inbox does not idle.
  step_es-IsBusy :
      (loop : EsLoop a) (fails : Bool) (now : ℕ) (w : Cell a) (e : Envelope P)
      (es : List (Envelope P))
      → IsSettled w.inbox (e ∷ es)
      → 1 ≤ loop.step_batch
      → IfReturns IsBusy (step_es a loop fails now w)
  unfolding step_es
  step_es-IsBusy loop fails now w e es s b =
      rw (step_es, claim_up_to-IsSettled loop.step_batch w.inbox (e ∷ es) s)
        (claimed_step-IsBusy loop fails now loop.step_batch w.inbox.cursor _ e es b)

  -- What has been done of the mail, and what is left, when the drain ends.
  pub record Ended (mails : List (Envelope P)) (w : Cell a) (r : Cell a × Step) : Type 0 where
    pub done : List (Envelope P)
    pub left : List (Envelope P)
    pub all : mails ≡ done ++ left
    pub waiting : IsSettled r.0.inbox left
    pub passed : r.0.inbox.cursor ≡ w.inbox.cursor + length done
    pub door : r.0.inbox.opened ≡ false
    pub why :
        ((r.1 ≡ work) × (left ≡ []))
        ⊎ (((r.1 ≡ crashed) × (r.0.is_crashed ≡ true) × (left ≢ [])) ⊎ (r.1 ≡ stop))

  Ended-behind :
      (w v : Cell a) (done mails : List (Envelope P)) (r : Cell a × Step)
      → v.inbox.cursor ≡ w.inbox.cursor + length done
      → Ended mails v r
      → Ended (done ++ mails) w r
  Ended-behind w v done mails r c e = record {
    done = done ++ e.done;
    left = e.left;
    all = ap (λ l. done ++ l) e.all ∙ sym (append_assoc done e.done e.left);
    waiting = e.waiting;
    passed = omega (arith, c, e.passed, length-append done e.done);
    door = e.door;
    why = e.why;
  }

  -- One step of the drain, with mail there.
  drained_step :
      (args : Args) (loop : EsLoop a) (fails : Bool) (now : ℕ) (w : Cell a) (e : Envelope P)
      (es : List (Envelope P))
      → IsSettled w.inbox (e ∷ es)
      → IsSound a args w
      → 1 ≤ loop.step_batch
      → w.is_stopping ≡ false
      → Fits a loop w (queued w.inbox.queue)
      → (r : Cell a × Step) × (step_es a loop fails now w ≡ returns r)
        × IsSound a args r.0
        × Progress a loop.step_batch (e ∷ es) w r
        × (r.1 ≢ idle)
        × (r.1 ≡ crashed → r.0.is_crashed ≡ true)
        × (r.0.inbox.opened ≡ w.inbox.opened)
  drained_step args loop fails now w e es s sound b h f =
      let fits : Fits a loop w (e ∷ es) =
        subst (Fits a loop w) (ap queued s.holds ∙ queued-numbered a w.inbox.cursor (e ∷ es)) f in
      let ((w', o), returned, progress) =
        step_es-Progress a loop fails now w (e ∷ es) s h sound.live.is_dense fits.unstamped
          fits.events fits.boundary fits.arrivals in
      (
        (w', o),
        returned,
        step_es-IsSound a args loop fails now w w' o h f returned sound,
        progress,
        subst (IfReturns IsBusy) returned (step_es-IsBusy loop fails now w e es s b),
        λ c.
            (step_es-IsRolledBack a loop fails now w w' (e ∷ es) s h
              (returned ∙ ap (λ o. returns (w', o)) c)).marked,
        subst (IfReturns (λ (q : Cell a × Step). q.0.inbox.opened ≡ w.inbox.opened)) returned
            (step_es-opened a loop fails now w),
      )

  -- How a step that is not idle divides the mail.
  divided :
      (n : ℕ) (w : Cell a) (e : Envelope P) (es : List (Envelope P)) (r : Cell a × Step)
      → IsSettled w.inbox (e ∷ es)
      → 1 ≤ n
      → Progress a n (e ∷ es) w r
      → (done : List (Envelope P)) × (left : List (Envelope P)) × (e ∷ es ≡ done ++ left)
        × IsSettled r.0.inbox left
        × (r.0.inbox.cursor ≡ w.inbox.cursor + length done)
        × (r.1 ≢ crashed → length left ≤ length es)
        × (r.1 ≡ crashed → left ≢ [])
  divided n w e es r s b (inl (c, same)) = (
    [],
    e ∷ es,
    refl,
    subst (λ q. IsSettled q (e ∷ es)) (sym same) s,
    ap (λ (q : Inbox (Envelope P)). q.cursor) same ∙ omega arith,
    λ nc. absurd (nc c),
    λ _ nothing. cc,
  )
  divided zero w e es r s b (inr (nc, behind, cursor)) = absurd (omega arith)
  divided (suc n) w e es r s b (inr (nc, behind, cursor)) = (
    take (suc n) (e ∷ es),
    drop (suc n) (e ∷ es),
    sym (take-append-drop (suc n) (e ∷ es)),
    behind,
    cursor ∙ ap (λ k. w.inbox.cursor + k) (sym (length-take (suc n) (e ∷ es))),
    λ _. length-drop-le n es,
    λ c. absurd (nc c),
  )

  -- The drain ends, on fuel for one turn more than there is mail.
  drain_mail-Ended :
      (args : Args) (loop : EsLoop a) (turns : Turns) (k : ℕ) (w : Cell a)
      (mails : List (Envelope P))
      → IsSettled w.inbox mails
      → IsSound a args w
      → 1 ≤ loop.step_batch
      → length mails < k
      → w.inbox.opened ≡ false
      → IsCalm a k loop turns w
      → (r : Cell a × Step) × (drain_mail a k loop turns w ≡ returns (some r))
        × IsSound a args r.0
        × Ended mails w r
  unfolding drain_mail
  drain_mail-Ended args loop turns zero w mails s sound b f shut calm = absurd (omega arith)
  drain_mail-Ended args loop turns (suc k) w [] s sound b f shut calm = (
    (w, work),
    rw (drain_mail, peek-nothing w.inbox s) refl,
    sound,
    record {
      done = [];
      left = [];
      all = refl;
      waiting = s;
      passed = omega arith;
      door = shut;
      why = inl (refl, refl);
    },
  )
  drain_mail-Ended args loop turns (suc k) w (e ∷ es) s sound b f shut calm =
      let (r, returned, kept, progress, busy, marked, same) =
        drained_step args loop (turns k).0 (turns k).1 w e es s sound b calm.0 calm.1 in
      let (done, left, all, waiting, passed, fewer, mail) =
        divided loop.step_batch w e es r s b progress in
      let peeked = peek-IsSettled w.inbox e es s in
      let came : (o : Step)
          → r.1 ≡ o
          → step_es a loop (turns k).0 (turns k).1 w ≡ returns (r.0, o) =
        λ o at. returned ∙ ap (λ o. returns (r.0, o)) at in
      let over : ((r.1 ≡ crashed) × (r.0.is_crashed ≡ true) × (left ≢ [])) ⊎ (r.1 ≡ stop)
          → Ended (e ∷ es) w r =
        λ why. record {
          done = done;
          left = left;
          all = all;
          waiting = waiting;
          passed = passed;
          door = same ∙ shut;
          why = inr why;
        } in
      elim (Step-cases r.1) [
        | inl at ↦
            let rest =
              drain_mail-Ended args loop turns k r.0 left waiting kept b
                (omega (arith, f, fewer (λ c. cc))) (same ∙ shut) (calm.2 r.0 (came work at)) in
            (
              rest.0,
              rw (drain_mail, peeked, came work at) rest.1,
              rest.2,
              subst (λ l. Ended l w rest.0) (sym all)
                  (Ended-behind w r.0 done left rest.0 passed rest.3),
            )
        | inr (inl at) ↦ absurd (busy at)
        | inr (inr (inl at)) ↦ (
          r,
          rw (drain_mail, peeked, came crashed at) (ap (λ o. returns (some (r.0, o))) (sym at)),
          kept,
          over (inl (at, marked at, mail at)),
        )
        | inr (inr (inr at)) ↦ (
          r,
          rw (drain_mail, peeked, came stop at) (ap (λ o. returns (some (r.0, o))) (sym at)),
          kept,
          over (inr at),
        )
      ]

  abbrev pub closed_door : Cell a → Cell a
  closed_door w = record w { inbox = close w.inbox }

  closed_door-IsSound :
      (args : Args) (w : Cell a) → IsSound a args w → IsSound a args (closed_door w)
  unfolding close
  closed_door-IsSound args w s = record {
    settled =
        let (mails, settled) = s.settled in
        (mails, record { holds = settled.holds; ends = settled.ends; fits = settled.fits });
    live = record { folded = s.live.folded; is_dense = s.live.is_dense };
  }

  -- An idle check returns. Either the actor stays up, because the system shuts down or its idle window has
  -- not elapsed, or it passivates: the drain works through a first part of the mail that was queued, in
  -- order, leaves the live state the fold of the journal and the inbox closed, and ends with no mail
  -- left, with a crash or with a stop. Also behind a crash the actor passivates, with the crash mark
  -- set and mail left in its closed inbox. The cell is sound at first and no claim is open, a batch
  -- has room for a message, and no turn of the drain runs a counter out, meets a batch stamped with
  -- one recorded fact, or begins behind a stop from outside.
  pub maybe_passivate-Ended :
      (args : Args) (loop : EsLoop a) (turns : Turns) (shutting_down : Bool) (idle_for : Option ℕ)
      (last now : ℕ) (w : Cell a) (mails : List (Envelope P))
      → IsSettled w.inbox mails
      → IsSound a args w
      → 1 ≤ loop.step_batch
      → IsCalm a (suc (length mails)) loop turns (closed_door w)
      → let r =
          maybe_passivate a (suc (length mails)) loop turns shutting_down idle_for last now w in
        ((r ≡ returns stays) × ((shutting_down ≡ true) ⊎ (is_due idle_for last now ≡ false)))
        ⊎ ((v : Cell a) × (outcome : Step) × (r ≡ returns (passivates v outcome))
            × IsSound a args v
            × Ended mails w (v, outcome))
  unfolding maybe_passivate close
  maybe_passivate-Ended args loop turns shutting_down idle_for last now w mails s sound b calm =
      elim (Bool-cases shutting_down) [
        | inl down ↦ inl (rw (maybe_passivate, down) refl, inl down)
        | inr up ↦ elim (Bool-cases (is_due idle_for last now)) [
          | inr early ↦ inl (rw (maybe_passivate, up, early) refl, inr early)
          | inl due ↦
              let (r, ended, kept, e) =
                drain_mail-Ended args loop turns (suc (length mails)) (closed_door w) mails
                  (record { holds = s.holds; ends = s.ends; fits = s.fits })
                  (closed_door-IsSound args w sound) b (omega arith) refl calm in
              inr (
                r.0,
                r.1,
                rw (maybe_passivate, up, due, ended) refl,
                kept,
                record {
                  done = e.done;
                  left = e.left;
                  all = e.all;
                  waiting = e.waiting;
                  passed = e.passed;
                  door = e.door;
                  why = e.why;
                },
              )
        ]
      ]
