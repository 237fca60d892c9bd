-- ===== src/Reply.antt =====
-- The reply slots of src/reply.rs: leases with an expiry. A lease is a number that its caller draws;
-- `alive` says whether the receiver of a lease is still held, which the channel's crate answers. The
-- hash map of slots is a list without two of one lease.
pub mod Leases
pub mod Waiting
mod Tests
use trouper.Prelude.{
  ℕ, Bool, true, false, not, List, [], ◌∷◌, ◌++◌, ltb, ◌==◌, if◌then◌else◌, add_u64, retain, any,
}

pub record ReplySlot : Type 0 where
  pub lease : ℕ
  pub expires_at : ℕ

-- The live slots, and what was sent into the channels, in order.
pub record ReplyTable (P : Type 0) : Type 0 where
  pub slots : List ReplySlot
  pub sent : List (ℕ × P)

abbrev pub has_lease : ℕ → ReplySlot → Bool
has_lease lease s = s.lease == lease

-- What happens to the table.
pub data Op (P : Type 0) : Type 0 where
  opens : (lease ttl now : ℕ) → Op P
  completes : (lease : ℕ) → P → Op P
  cancels : (lease : ℕ) → Op P
  prunes : (now : ℕ) → Op P

module _ {P : Type 0} where
  abbrev pub no_slots : ReplyTable P
  no_slots = record { slots = []; sent = [] }

  unfoldable pub remove : ℕ → ReplyTable P → ReplyTable P
  remove lease t = record t { slots = retain (λ s. not (has_lease lease s)) t.slots }

  unfoldable pub holds : ℕ → ReplyTable P → Bool
  holds lease t = any (has_lease lease) t.slots

  -- `insert` replaces a slot under the same lease. The sum is an unchecked one of 64 bits.
  unfoldable pub open_lease : ℕ → ℕ → ℕ → ReplyTable P → ReplyTable P
  unfolding remove
  open_lease lease ttl now t = record t {
    slots = (remove lease t).slots ++ record { lease = lease; expires_at = add_u64 now ttl } ∷ [];
  }

  unfoldable pub complete : (ℕ → Bool) → ℕ → P → ReplyTable P → ReplyTable P × Bool
  unfolding holds remove
  complete alive lease payload t =
      if holds lease t
      then if alive lease
        then (record (remove lease t) { sent = t.sent ++ (lease, payload) ∷ [] }, true)
        else (remove lease t, false)
      else (t, false)

  unfoldable pub cancel : ℕ → ReplyTable P → ReplyTable P
  unfolding remove
  cancel lease t = remove lease t

  unfoldable pub prune_slots : ℕ → ReplyTable P → ReplyTable P
  prune_slots now t = record t { slots = retain (λ (s : ReplySlot). ltb now s.expires_at) t.slots }

  unfoldable pub run_op : (ℕ → Bool) → Op P → ReplyTable P → ReplyTable P
  unfolding open_lease complete cancel prune_slots
  run_op alive (opens lease ttl now) t = open_lease lease ttl now t
  run_op alive (completes lease payload) t = (complete alive lease payload t).0
  run_op alive (cancels lease) t = cancel lease t
  run_op alive (prunes now) t = prune_slots now t

  unfoldable pub run_ops : (ℕ → Bool) → List (Op P) → ReplyTable P → ReplyTable P
  unfolding run_op
  run_ops alive [] t = t
  run_ops alive (op ∷ ops) t = run_ops alive ops (run_op alive op t)
