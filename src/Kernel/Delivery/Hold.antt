-- ===== src/Kernel/Delivery/Hold.antt =====
-- `push_holding_block` of src/kernel.rs: a push that waits for room under the Block policy. What the
-- rest of the runtime does to the inbox until the n-th wake of the hold is `resumed n`; whether a wake
-- comes at all is the notifier's, so that a hold is modelled as one whose wakes come. The number of
-- parks that are left counts down from the cap.
use trouper.Prelude.{
  ℕ, zero, suc, Bool, true, false, ◌&&◌, List, [], ◌∷◌, ◌++◌, Run, returns, ◌>>=◌,
}
use trouper.Envelope.{Envelope}
use trouper.Inbox.{
  OverloadPolicy, block, Refused, full, evicted, closed, ok, err, Inbox, push, into_envelope,
}
use trouper.Kernel.Outbox.{DeadLetter, inbox_refused}

abbrev pub block_hold_max_parks : ℕ
block_hold_max_parks = 10000

abbrev pub is_block : OverloadPolicy → Bool
is_block block = true
is_block _ = false

abbrev pub is_full {κ} : {E : Type κ} → Refused E → Bool
is_full (full e) = true
is_full (evicted e) = false
is_full (closed e) = false

-- The inbox and the dead letters that a hold leaves, and whether it wakes the loop.
pub record Held (P : Type 0) : Type 0 where
  pub inbox : Inbox (Envelope P)
  pub dead_letters : List (DeadLetter P)
  pub accepted : Bool

module _ {P : Type 0} where
  abbrev pub given_up : Inbox (Envelope P) → Refused (Envelope P) → List (DeadLetter P) → Held P
  given_up q refusal letters = record {
    inbox = q;
    dead_letters =
        letters ++ record { reason = inbox_refused; envelope = into_envelope refusal } ∷ [];
    accepted = false;
  }

  unfoldable pub hold :
      OverloadPolicy
      → (ℕ → Inbox (Envelope P) → Inbox (Envelope P))
      → ℕ
      → Envelope P
      → Inbox (Envelope P)
      → List (DeadLetter P)
      → Run (Held P)
  unfolding push into_envelope
  hold policy resumed zero e q letters = push e q >>= λ r. elim r.1 [
    | ok offset ↦ returns (record { inbox = r.0; dead_letters = letters; accepted = true })
    | err refusal ↦ returns (given_up r.0 refusal letters)
  ]
  hold policy resumed (suc parks) e q letters = push e q >>= λ r. elim r.1 [
    | ok offset ↦ returns (record { inbox = r.0; dead_letters = letters; accepted = true })
    | err refusal ↦ elim (is_full refusal && is_block policy) [
      | true ↦ hold policy resumed parks (into_envelope refusal) (resumed parks r.0) letters
      | false ↦ returns (given_up r.0 refusal letters)
    ]
  ]

  unfoldable pub push_holding_block :
      OverloadPolicy
      → (ℕ → Inbox (Envelope P) → Inbox (Envelope P))
      → Envelope P
      → Inbox (Envelope P)
      → List (DeadLetter P)
      → Run (Held P)
  unfolding hold
  push_holding_block policy resumed e q letters =
      hold policy resumed block_hold_max_parks e q letters
