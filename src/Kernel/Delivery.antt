-- ===== src/Kernel/Delivery.antt =====
-- Delivery in src/kernel.rs: `direct_push` with its watermark latch, the latch of the front door, and
-- the door's depth. Whether a handler observes is left out: a `Backpressured` fact is the depth it
-- carries.
pub mod Watermark
pub mod Direct
pub mod Hold
pub mod Holding
mod Tests
use trouper.Prelude.{
  ℕ, ◌+◌, ◌*◌, max, Bool, true, false, not, ◌&&◌, Option, none, some, List, [], ◌∷◌, ◌++◌, ltb, leb,
  if◌then◌else◌, Run, returns, ◌>>=◌,
}
use trouper.Envelope.{Envelope}
use trouper.Inbox.{
  OverloadPolicy, block, drop_new, drop_old, unbounded, into_envelope, queued_anyway, ok, err,
  Inbox, push, len,
}
use trouper.Kernel.Outbox.{DeadLetter, inbox_refused}

abbrev pub door_capacity_unbounded : ℕ
door_capacity_unbounded = 65536

unfoldable pub door_capacity : ℕ → OverloadPolicy → ℕ
door_capacity mailbox_capacity block = max mailbox_capacity 1
door_capacity mailbox_capacity drop_new = max mailbox_capacity 1 * 2
door_capacity mailbox_capacity drop_old = max mailbox_capacity 1 * 2
door_capacity mailbox_capacity unbounded = door_capacity_unbounded

-- The fields of a cell that a delivery reads and writes, the dead letters, and the facts it fires.
pub record Door (P : Type 0) : Type 0 where
  pub inbox : Inbox (Envelope P)
  pub has_watermark : Bool
  pub watermark_high : ℕ
  pub watermark_fired : Bool
  pub dead_letters : List (DeadLetter P)
  pub backpressured : List ℕ
  -- how often the loop was woken
  pub wakes : ℕ

-- The check at one depth: the latch behind it, and whether it fires.
unfoldable pub latch : ℕ → Bool → ℕ → Bool × Bool
latch mark fired depth =
    if ltb mark depth && not fired
    then (true, true)
    else if leb depth mark
    then (false, false)
    else (fired, false)

module _ {P : Type 0} where
  unfoldable pub check_watermark : Door P → Door P
  unfolding latch
  check_watermark d =
      let depth = len d.inbox in
      let (fired, fires) = latch d.watermark_high d.watermark_fired depth in
      if d.has_watermark
      then record d {
        watermark_fired = fired;
        backpressured = if fires then d.backpressured ++ depth ∷ [] else d.backpressured;
      }
      else d

  -- The answer is `none` for `Ok(())`, and the envelope that `Err` hands back.
  unfoldable pub direct_push : Envelope P → Door P → Run (Door P × Option (Envelope P))
  unfolding check_watermark push into_envelope queued_anyway
  direct_push e d = push e d.inbox >>= λ r. elim r.1 [
    | ok offset ↦
        let d' = check_watermark (record d { inbox = r.0 }) in
        returns (record d' { wakes = d'.wakes + 1 }, none)
    | err refused ↦
        let d' = check_watermark (record d { inbox = r.0 }) in
        if queued_anyway refused
        then returns (
          record d' {
            dead_letters =
                d'.dead_letters
                ++ record { reason = inbox_refused; envelope = into_envelope refused } ∷ [];
            wakes = d'.wakes + 1;
          },
          none,
        )
        else returns (record d { inbox = r.0 }, some (into_envelope refused))
  ]
