-- ===== src/Kernel/Lifetime/Sound.antt =====
-- What every run of an event-sourced actor of src/kernel.rs keeps.
use trouper.Prelude.{
  foldl, ℕ, suc, ◌+◌, ◌<◌, ◌≡◌, refl, sym, ap, subst, ◌∙◌, inl, inr, Bool, false, not, some, List,
  [], ◌∷◌, ◌++◌, arith, leb, u64_mod, add_u64, length, length-append, returns, IfReturns,
  IfReturns-if, drop, some-inj,
}
use trouper.Journal.Seqs.{IsDense}
use trouper.Journal.{journaled_of}
use trouper.Envelope.{Envelope}
use trouper.Actor.{EventSourced}
use trouper.Actor.Recovery.{IsFaithful, recover-eq-fold, fold}
use trouper.Inbox.{
  is_unbounded, Inbox, push, reopen, queue_next, evict_front, push_full, OverloadPolicy, block,
  drop_new, drop_old, unbounded,
}
use trouper.Inbox.Claims.{IsSettled, numbered, numbered-append}
use trouper.Kernel.Decide.{Cell, EsLoop, Step}
use trouper.Kernel.Snapshot.{snapshot_each}
use trouper.Kernel.Step.{step_es}
use trouper.Kernel.Step.Live.{snapshot_each-IsDense, IsLive, step_es-IsLive}
use trouper.Kernel.Step.Commit.{Progress, step_es-Progress}
use trouper.Kernel.Lifetime.{
  idles, journal_head, queued, restart_es, Fits, Move, arrives, steps, restarts, Runs, starts,
  goes_on,
}

module _ {E : Type 0} where
  abbrev SomeSettled : Inbox E → Type 0
  SomeSettled q = (es : List E) × IsSettled q es

  queue_next-IsSettled :
      (e : E) (q : Inbox E) (es : List E)
      → IsSettled q es
      → q.next_offset + 2 < u64_mod
      → IsSettled (queue_next e q) (es ++ e ∷ [])
  unfolding queue_next
  queue_next-IsSettled e q es s f = record {
    holds =
        ap (λ l. l ++ (q.next_offset, some e) ∷ []) s.holds
        ∙ ap (λ k. numbered q.cursor es ++ (k, some e) ∷ []) (sym s.ends)
        ∙ sym (numbered-append q.cursor es (e ∷ []));
    ends = omega (arith, s.ends, length-append es (e ∷ []));
    fits = omega arith;
  }

  evict_front-SomeSettled :
      (e : E) (q : Inbox E) (es : List E)
      → IsSettled q es
      → q.next_offset + 2 < u64_mod
      → IfReturns (λ r. SomeSettled r.0) (evict_front e q (numbered q.cursor es))
  unfolding evict_front
  evict_front-SomeSettled e q [] s f = ([] ++ e ∷ [], queue_next-IsSettled e q [] s f)
  evict_front-SomeSettled e q (old ∷ es) s f = (
    es ++ e ∷ [],
    queue_next-IsSettled e
        (record q { queue = numbered (suc q.cursor) es; cursor = add_u64 q.cursor 1 }) es
        (record {
          holds = ap (λ k. numbered k es) (omega (arith, s.ends, s.fits));
          ends = omega (arith, s.ends, s.fits);
          fits = s.fits;
        })
        f,
  )

  push_full-SomeSettled :
      (policy : OverloadPolicy) (e : E) (q : Inbox E) (es : List E)
      → IsSettled q es
      → q.next_offset + 2 < u64_mod
      → IfReturns (λ r. SomeSettled r.0) (push_full policy e q)
  unfolding push_full
  push_full-SomeSettled block e q es s f = (es, s)
  push_full-SomeSettled drop_new e q es s f = (es, s)
  push_full-SomeSettled drop_old e q es s f =
      subst (λ slots. IfReturns (λ r. SomeSettled r.0) (evict_front e q slots)) (sym s.holds)
        (evict_front-SomeSettled e q es s f)
  push_full-SomeSettled unbounded e q es s f = tt

  push-SomeSettled :
      (e : E) (q : Inbox E) (es : List E)
      → IsSettled q es
      → q.next_offset + 2 < u64_mod
      → IfReturns (λ r. SomeSettled r.0) (push e q)
  unfolding push
  push-SomeSettled e q es s f =
      let queued : SomeSettled (queue_next e q) = (es ++ e ∷ [], queue_next-IsSettled e q es s f) in
      IfReturns-if (λ r. SomeSettled r.0) (not q.opened) _ _ (λ _. (es, s))
        (λ _.
          IfReturns-if (λ r. SomeSettled r.0) (is_unbounded q.policy) _ _ (λ _. queued)
            (λ _.
              IfReturns-if (λ r. SomeSettled r.0) (leb q.capacity (length q.queue)) _ _
                (λ _. push_full-SomeSettled q.policy e q es s f) (λ _. queued)))

module _ {P S : Type 0} (a : EventSourced P S) where
  open a use {State, Args, restore, apply}

  -- No claim is left open, and the live state is the fold of a dense journal.
  pub record IsSound (args : Args) (w : Cell a) : Type 0 where
    pub settled : (mails : List (Envelope P)) × IsSettled w.inbox mails
    pub live : IsLive a args w

  pub queued-numbered : (k : ℕ) (mails : List (Envelope P)) → queued (numbered k mails) ≡ mails
  queued-numbered k [] = refl
  queued-numbered k (e ∷ es) = ap (λ l. e ∷ l) (queued-numbered (suc k) es)

  settled_behind :
      (n : ℕ) (w : Cell a) (mails : List (Envelope P)) (r : Cell a × Step)
      → IsSettled w.inbox mails
      → Progress a n mails w r
      → SomeSettled r.0.inbox
  settled_behind n w mails r s (inl (c, same)) =
      (mails, subst (λ q. IsSettled q mails) (sym same) s)
  settled_behind n w mails r s (inr (c, behind, cursor)) = (drop n mails, behind)

  pub step_es-IsSound :
      (args : Args) (loop : EsLoop a) (fails : Bool) (now : ℕ) (w w' : Cell a) (outcome : Step)
      → w.is_stopping ≡ false
      → Fits a loop w (queued w.inbox.queue)
      → step_es a loop fails now w ≡ returns (w', outcome)
      → IsSound args w
      → IsSound args w'
  step_es-IsSound args loop fails now w w' outcome h f e s =
      let (mails, settled) = s.settled in
      let fits : Fits a loop w mails =
        subst (Fits a loop w) (ap queued settled.holds ∙ queued-numbered w.inbox.cursor mails) f in
      let (r, returned, progress) =
        step_es-Progress a loop fails now w mails settled h s.live.is_dense fits.unstamped
          fits.events fits.boundary fits.arrivals in
      record {
        settled =
            subst (IfReturns (λ (r : Cell a × Step). SomeSettled r.0.inbox)) (sym returned ∙ e)
              (settled_behind loop.step_batch w mails r settled progress);
        live = subst (IfReturns (λ (r : Cell a × Step). IsLive a args r.0)) e (
            step_es-IsLive a args loop fails now w mails settled s.live fits.unstamped fits.events
              fits.arrivals);
      }

  abbrev restarted : Args → Cell a → Cell a
  restarted args w = record w {
    live = fold a args w.journal;
    is_crashed = false;
    last_event_seq = journal_head (journaled_of w.journal.entries);
    inbox = reopen w.inbox;
  }

  -- A restart is exact when the latest snapshot is.
  restart_es-fold :
      (args : Args) (w : Cell a)
      → IsFaithful a args w.journal
      → IsDense w.journal
      → restart_es a args w ≡ some (restarted args w)
  unfolding restart_es
  restart_es-fold args w f d = rw (restart_es, recover-eq-fold a args w.journal d f) refl

  restart_es-IsSound :
      (args : Args) (w w' : Cell a)
      → IsFaithful a args w.journal
      → restart_es a args w ≡ some w'
      → IsSound args w
      → IsSound args w'
  unfolding restart_es reopen
  restart_es-IsSound args w w' f e s =
      subst (IsSound args) (some-inj (sym (restart_es-fold args w f s.live.is_dense) ∙ e)) (record {
        settled =
            let (mails, settled) = s.settled in
            (mails, record { holds = settled.holds; ends = settled.ends; fits = settled.fits });
        live = record { folded = refl; is_dense = s.live.is_dense };
      })

  Move-IsSound :
      (args : Args) (loop : EsLoop a) {w w' : Cell a}
      → Move a args loop w w'
      → IsSound args w
      → IsSound args w'
  unfolding snapshot_each
  Move-IsSound args loop (arrives e w q answer f h) s = record {
    settled =
        let (mails, settled) = s.settled in
        subst (IfReturns (λ r. SomeSettled r.0)) h (push-SomeSettled e w.inbox mails settled f);
    live = record { folded = s.live.folded; is_dense = s.live.is_dense };
  }
  Move-IsSound args loop (steps fails now w w' outcome c h f e) s =
      step_es-IsSound args loop fails now w w' outcome h f e s
  Move-IsSound args loop (idles now anchor seq w e) s =
      let r = snapshot_each-IsDense a now w.live (seq ∷ []) w.journal s.live.is_dense in
      record {
        settled = s.settled;
        live = record {
          folded = s.live.folded ∙ ap (foldl apply (restore args)) (sym r.1);
          is_dense = r.0;
        };
      }
  Move-IsSound args loop (restarts w w' c f e) s = restart_es-IsSound args w w' f e s

  -- Over any run of moves of an actor from a sound cell, mail, steps, crashes, restarts and idle
  -- snapshots in any order:
  -- between two moves no claim is left open, and the live state is the fold of a dense journal. A step whose
  -- counters would run out or whose batch is stamped with one recorded fact is no move, and a restart
  -- is one only with a faithful latest snapshot.
  pub Runs-IsSound :
      (args : Args) (loop : EsLoop a) {w w' : Cell a}
      → Runs a args loop w w'
      → IsSound args w
      → IsSound args w'
  Runs-IsSound args loop starts s = s
  Runs-IsSound args loop (goes_on run move) s =
      Move-IsSound args loop move (Runs-IsSound args loop run s)

  -- A restart behind such a run from a sound cell, one without steps on batches that are stamped with one
  -- recorded fact and without restarts from unfaithful snapshots, when the latest snapshot is faithful:
  -- it succeeds, and gives back the live state that the actor had when it went down, the queued messages, the cursor
  -- and the journal, with the crash mark cleared.
  pub Runs-restart_es :
      (args : Args) (loop : EsLoop a) {w w' : Cell a}
      → Runs a args loop w w'
      → IsSound args w
      → IsFaithful a args w'.journal
      → (r : Cell a) × (restart_es a args w' ≡ some r)
        × (r.live ≡ w'.live)
        × (r.inbox.queue ≡ w'.inbox.queue)
        × (r.inbox.cursor ≡ w'.inbox.cursor)
        × (r.journal ≡ w'.journal)
        × (r.is_crashed ≡ false)
  unfolding reopen
  Runs-restart_es args loop {w' = w'} run s f =
      let sound = Runs-IsSound args loop run s in
      (
        restarted args w',
        restart_es-fold args w' f sound.live.is_dense,
        sym sound.live.folded,
        refl,
        refl,
        refl,
        refl,
      )
