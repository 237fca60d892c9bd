-- ===== src/Kernel/Lifetime.antt =====
-- The life of an event-sourced actor in src/kernel.rs: mail that arrives, the steps of its loop, the
-- idle snapshot, and the supervised restart `restart_es`, as moves of one cell.
pub mod Sound
pub mod Passivation
pub mod DoorState
pub mod Drained
mod Tests
use trouper.Prelude.{
  ℕ, ◌+◌, ◌<◌, max, ◌≡◌, Bool, true, false, Option, none, some, List, [], ◌∷◌, u64_mod, u64_max,
  length, returns,
}
use trouper.Journal.{JournaledEvent, SeqNo, replay}
use trouper.Envelope.{Envelope}
use trouper.Actor.{EventSourced, recover}
use trouper.Actor.Recovery.{IsFaithful}
use trouper.Inbox.{Inbox, Pushed, push, reopen}
use trouper.Inbox.Claims.{batch_of}
use trouper.Kernel.Snapshot.{cell_sentinel, maybe_snapshot_on_idle, snapshot_now}
use trouper.Kernel.Decide.{Cell, EsLoop, Step, same_origin}
use trouper.Kernel.Step.{step_es}
use trouper.Kernel.Step.Live.{events_from}
use trouper.Kernel.Step.Commit.{FitsCadence}

module _ {P : Type 0} where
  -- The mail in the slots that are not claimed.
  abbrev pub queued : List (ℕ × Option (Envelope P)) → List (Envelope P)
  queued [] = []
  queued ((o, none) ∷ slots) = queued slots
  queued ((o, some e) ∷ slots) = e ∷ queued slots

  abbrev pub max_seq : SeqNo → List (JournaledEvent P) → SeqNo
  max_seq head [] = head
  max_seq head (j ∷ js) = max_seq (max head j.seq) js

  -- The last committed sequence, from the replay.
  abbrev pub journal_head : List (JournaledEvent P) → SeqNo
  journal_head [] = cell_sentinel
  journal_head (j ∷ js) = max_seq 0 (j ∷ js)

module _ {P S : Type 0} (a : EventSourced P S) where
  open a use {State, Args}

  -- `restart_es` over the cell: a state that does not rebuild is an error, which leaves the cell alone.
  unfoldable pub restart_es : Args → Cell a → Option (Cell a)
  unfolding recover replay reopen
  restart_es args w = elim (recover a args (replay w.journal)) [
    | none ↦ none
    | some fresh ↦ some (record w {
      live = fresh;
      is_crashed = false;
      last_event_seq = journal_head (replay w.journal).events;
      inbox = reopen w.inbox;
    })
  ]

  -- The step's counters do not run out, and its batch is not stamped with one recorded fact.
  pub record Fits (loop : EsLoop a) (w : Cell a) (mails : List (Envelope P)) : Type 0 where
    pub unstamped : same_origin a (batch_of loop.step_batch w.inbox.cursor mails) ≡ none
    pub events :
        w.journal.event_count
          + length (events_from a loop w.live (batch_of loop.step_batch w.inbox.cursor mails))
        < u64_max
    pub boundary : FitsCadence loop.cadence (
        w.journal.event_count
        + length (events_from a loop w.live (batch_of loop.step_batch w.inbox.cursor mails)))
    pub arrivals :
        w.next_ingest
          + length (events_from a loop w.live (batch_of loop.step_batch w.inbox.cursor mails))
        < u64_mod

  -- What can happen to a running actor. The store may fail at any step.
  pub data Move (args : Args) (loop : EsLoop a) : Cell a → Cell a → Type 0 where
    arrives :
        (e : Envelope P) (w : Cell a) (q : Inbox (Envelope P)) (answer : Pushed (Envelope P))
        → w.inbox.next_offset + 2 < u64_mod
        → push e w.inbox ≡ returns (q, answer)
        → Move args loop w (record w { inbox = q })
    steps :
        (fails : Bool) (now : ℕ) (w w' : Cell a) (outcome : Step)
        → w.is_crashed ≡ false
        → w.is_stopping ≡ false
        → Fits loop w (queued w.inbox.queue)
        → step_es a loop fails now w ≡ returns (w', outcome)
        → Move args loop w w'
    -- The idle duty, at whatever time the cadence's clock was anchored.
    idles :
        (now anchor seq : ℕ) (w : Cell a)
        → maybe_snapshot_on_idle loop.cadence anchor w.last_event_seq now ≡ some seq
        → Move args loop w (record w { journal = snapshot_now a now w.live seq w.journal })
    restarts :
        (w w' : Cell a)
        → w.is_crashed ≡ true
        → IsFaithful a args w.journal
        → restart_es args w ≡ some w'
        → Move args loop w w'

  pub data Runs (args : Args) (loop : EsLoop a) (w : Cell a) : Cell a → Type 0 where
    starts : Runs args loop w w
    goes_on : {v u : Cell a} → Runs args loop w v → Move args loop v u → Runs args loop w u
