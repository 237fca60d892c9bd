-- ===== src/Kernel/Step.antt =====
-- `step_es` of src/kernel.rs: the atomic step of an event-sourced actor over one batch, with its claim
-- guard, from the stages of Kernel.Decide on. The store is the actor's in-memory journal.
pub mod Commit
pub mod Crash
pub mod Live
pub mod Stamped
pub mod Tests
use trouper.Prelude.{
  ℕ, Bool, true, none, some, List, [], ◌∷◌, ◌++◌, map, foldl, if◌then◌else◌, Run, returns, panics,
  ◌>>=◌,
}
use trouper.Journal.{SeqNo, Event}
use trouper.Envelope.{Address, Envelope, raw, with_from, with_recorded_origin}
use trouper.Actor.{EventSourced}
use trouper.Inbox.{claim_up_to, restore_claims}
use trouper.Inbox.Commits.{commit_each}
use trouper.Kernel.Outbox.{DeadLetter, stopped_with_mail, Intent, flush_each}
use trouper.Kernel.Snapshot.{maybe_snapshot, snapshot_each, last_of}
use trouper.Kernel.Decide.{
  Cell, EsLoop, Step, already_held, append_stage, crashed, decide_all, declared_events, idle,
  landed, refused, stop, undeclared_letters, work,
}

module _ {P S : Type 0} (a : EventSourced P S) where
  open a use {State, apply}

  abbrev pub with_letters : List (DeadLetter P) → Cell a → Cell a
  with_letters letters w = record w { dead_letters = w.dead_letters ++ letters }

  -- `ClaimGuard::drop` of a batch that nothing was committed of: a stopping actor's claims are
  -- dead-lettered, any other's go back to their slots.
  unfoldable pub drop_guard : List (ℕ × Envelope P) → Cell a → Run (Cell a)
  drop_guard batch w =
      if w.is_stopping
      then returns (
          with_letters
            (map (λ claim. record { reason = stopped_with_mail; envelope = claim.1 }) batch) w)
      else restore_claims batch w.inbox >>= (λ r. returns (record w { inbox = r.0 }))

  -- `mark_crashed`, and the guard's drop on the way out.
  unfoldable pub crash_out : List (ℕ × Envelope P) → Cell a → Run (Cell a × Step)
  unfolding drop_guard
  crash_out batch w =
      drop_guard batch (record w { is_crashed = true }) >>= λ w'. returns (w', crashed)

  -- Stage 9, for the copies that it broadcasts.
  unfoldable pub fan_out_emits : EsLoop a → List (Event P) → List SeqNo → List (Envelope P)
  unfolding raw with_from with_recorded_origin
  fan_out_emits loop [] seqs = []
  fan_out_emits loop (ev ∷ evs) [] = []
  fan_out_emits loop (ev ∷ evs) (seq ∷ seqs) =
      with_recorded_origin loop.own_path seq
        (with_from loop.own_path (raw ev.schema (Address.schema ev.schema) ev.payload loop.root))
      ∷ fan_out_emits loop evs seqs

  abbrev pub last_seq_of : ℕ → List SeqNo → ℕ
  last_seq_of old [] = old
  last_seq_of old (seq ∷ seqs) = last_of seq seqs

  -- The cell behind stages 6 to 10.
  abbrev pub finished :
      EsLoop a → ℕ → List (List (Intent P)) → List (Event P) → List SeqNo → List ℕ → Cell a → Cell a
  finished loop now outboxes events seqs anchors w =
      let st = foldl apply w.live events in
      let flushed = flush_each loop.declared_emits loop.own_path outboxes in
      let copies = if loop.is_projector then [] else fan_out_emits loop events seqs in
      record w {
        live = st;
        journal = snapshot_each a now st anchors w.journal;
        last_event_seq = last_seq_of w.last_event_seq seqs;
        dead_letters = w.dead_letters ++ flushed.dropped;
        effects = w.effects ++ flushed.routed;
        broadcasts = w.broadcasts ++ copies;
      }

  -- Stages 6 to 10, behind the append. A snapshot loop without end would be a panic.
  unfoldable pub finish_step :
      EsLoop a
      → ℕ
      → List (List (Intent P))
      → List (Event P)
      → List SeqNo
      → Cell a
      → Run (Cell a × Step)
  unfolding fan_out_emits flush_each maybe_snapshot snapshot_each
  finish_step loop now outboxes events seqs w = elim (maybe_snapshot loop.cadence seqs) [
    | none ↦ panics
    | some anchors ↦ returns (
      finished loop now outboxes events seqs anchors w,
      if (flush_each loop.declared_emits loop.own_path outboxes).stop then stop else work,
    )
  ]

  -- Stages 5 to 10.
  unfoldable pub commit_step :
      EsLoop a
      → Bool
      → ℕ
      → List (ℕ × Envelope P)
      → List (List (Intent P))
      → List (Event P)
      → Cell a
      → Run (Cell a × Step)
  unfolding append_stage crash_out finish_step
  commit_step loop fails now batch outboxes events w = elim (append_stage a fails batch events w) [
    | refused ↦ crash_out batch w
    | already_held j ingest ↦ commit_each batch w.inbox >>= λ r.
        returns (record w { inbox = r.0; journal = j; next_ingest = ingest }, work)
    | landed j ingest seqs ↦ commit_each batch w.inbox >>= λ r.
        finish_step loop now outboxes events seqs
          (record w { inbox = r.0; journal = j; next_ingest = ingest })
  ]

  -- Behind the claim.
  unfoldable pub claimed_step :
      EsLoop a → Bool → ℕ → List (ℕ × Envelope P) → Cell a → Run (Cell a × Step)
  unfolding commit_step decide_all declared_events undeclared_letters
  claimed_step loop fails now [] w = returns (w, idle)
  claimed_step loop fails now (claim ∷ claims) w =
      let batch = claim ∷ claims in
      let d = decide_all a loop.command_entries w.live batch in
      let w' = with_letters d.letters w in
      if d.panicked
      then crash_out batch w'
      else commit_step loop fails now batch d.outboxes (declared_events a loop d.recorded_events)
          (with_letters (undeclared_letters a loop d.recorded_events) w')

  unfoldable pub step_es : EsLoop a → Bool → ℕ → Cell a → Run (Cell a × Step)
  unfolding claimed_step
  step_es loop fails now w = claim_up_to loop.step_batch w.inbox >>= λ r.
      claimed_step loop fails now r.1 (record w { inbox = r.0 })
