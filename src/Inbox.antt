-- ===== src/Inbox.antt =====
-- src/inbox.rs: one actor's bounded inbox with offset-based peek, claim, restore and commit.
-- An envelope is only moved here, so its type `E` is a parameter. A slot of the queue is an offset
-- with `some e`, or with `none` for a claim tombstone. A panic of the source is `panics`.
pub mod Wf
pub mod Policy
pub mod Claims
pub mod Commits
pub mod Refusals
mod Tests
use trouper.Prelude.{
  ℕ, ◌+◌, Bool, true, false, not, Option, none, some, List, [], ◌∷◌, ◌++◌, ltb, leb, ◌==◌,
  if◌then◌else◌, length, add_u64, sub_u64, Run, returns, panics, ◌>>=◌, max,
}

pub data OverloadPolicy : Type 0 where
  block drop_new drop_old unbounded : OverloadPolicy

pub data Refused {ℓ} (E : Type ℓ) : Type ℓ where
  full evicted closed : E → Refused E

-- `Result<InboxOffset, Refused>`
pub data Pushed {ℓ} (E : Type ℓ) : Type ℓ where
  ok : ℕ → Pushed E
  err : Refused E → Pushed E

pub record Inbox {ℓ} (E : Type ℓ) : Type ℓ where
  pub capacity : ℕ
  pub policy : OverloadPolicy
  -- Offset of the next envelope to be enqueued.
  pub next_offset : ℕ
  -- Offset of the next un-acked envelope.
  pub cursor : ℕ
  pub queue : List (ℕ × Option E)
  pub opened : Bool

abbrev pub is_unbounded : OverloadPolicy → Bool
is_unbounded unbounded = true
is_unbounded _ = false

abbrev pub is_empty_list {κ} : {A : Type κ} → List A → Bool
is_empty_list [] = true
is_empty_list (x ∷ xs) = false

module _ {ℓ} {E : Type ℓ} where
  unfoldable pub into_envelope : Refused E → E
  into_envelope (full e) = e
  into_envelope (evicted e) = e
  into_envelope (closed e) = e

  unfoldable pub queued_anyway : Refused E → Bool
  queued_anyway (full e) = false
  queued_anyway (evicted e) = true
  queued_anyway (closed e) = false

  unfoldable pub new : ℕ → OverloadPolicy → Inbox E
  new capacity policy = record {
    capacity = max capacity 1;
    policy = policy;
    next_offset = 0;
    cursor = 0;
    queue = [];
    opened = true;
  }

  unfoldable pub queue_next : E → Inbox E → Inbox E
  queue_next e q = record q {
    next_offset = add_u64 q.next_offset 1;
    queue = q.queue ++ (q.next_offset, some e) ∷ [];
  }

  -- The tail of `push`: queues, and answers the offset that was assigned.
  abbrev pub enqueue : E → Inbox E → Run (Inbox E × Pushed E)
  enqueue e q = let q' = queue_next e q in returns (q', ok (sub_u64 q'.next_offset 1))

  -- The `DropOld` arm: pops the front, and panics on a claim tombstone there.
  unfoldable pub evict_front : E → Inbox E → List (ℕ × Option E) → Run (Inbox E × Pushed E)
  unfolding queue_next
  evict_front e q [] = enqueue e q
  evict_front e q ((o, none) ∷ rest) = panics
  evict_front e q ((o, some old) ∷ rest) =
      returns
        (queue_next e (record q { queue = rest; cursor = add_u64 q.cursor 1 }), err (evicted old))

  unfoldable pub push_full : OverloadPolicy → E → Inbox E → Run (Inbox E × Pushed E)
  unfolding evict_front
  push_full block e q = returns (q, err (full e))
  push_full drop_new e q = returns (q, err (full e))
  push_full drop_old e q = evict_front e q q.queue
  push_full unbounded e q = panics

  unfoldable pub push : E → Inbox E → Run (Inbox E × Pushed E)
  unfolding push_full
  push e q =
      if not q.opened
      then returns (q, err (closed e))
      else if is_unbounded q.policy
      then enqueue e q
      else if leb q.capacity (length q.queue)
      then push_full q.policy e q
      else enqueue e q

  unfoldable pub close : Inbox E → Inbox E
  close q = record q { opened = false }

  unfoldable pub reopen : Inbox E → Inbox E
  reopen q = record q { opened = true }

  unfoldable pub drain_slots : List (ℕ × Option E) → List E × List (ℕ × Option E)
  drain_slots [] = ([], [])
  drain_slots ((o, some e) ∷ rest) = let (drained, keep) = drain_slots rest in (e ∷ drained, keep)
  drain_slots ((o, none) ∷ rest) =
      let (drained, keep) = drain_slots rest in (drained, (o, none) ∷ keep)

  unfoldable pub drain_live : Inbox E → Inbox E × List E
  unfolding drain_slots
  drain_live q = let (drained, keep) = drain_slots q.queue in (record q { queue = keep }, drained)

  unfoldable pub peek_slots : ℕ → List (ℕ × Option E) → Run (Option E)
  peek_slots cursor [] = returns none
  peek_slots cursor ((o, slot) ∷ rest) =
      if o == cursor then elim slot [ some e ↦ returns (some e) | none ↦ panics ] else returns none

  unfoldable pub peek : Inbox E → Run (Option E)
  unfolding peek_slots
  peek q = peek_slots q.cursor q.queue

  unfoldable pub pop_at : ℕ → List (ℕ × Option E) → List (ℕ × Option E)
  pop_at cursor [] = []
  pop_at cursor ((o, slot) ∷ rest) = if o == cursor then rest else (o, slot) ∷ rest

  unfoldable pub ack : Inbox E → Run (Inbox E × ℕ)
  unfolding pop_at
  ack q =
      if leb q.next_offset q.cursor
      then panics
      else let cursor' = add_u64 q.cursor 1 in
        returns (record q { queue = pop_at q.cursor q.queue; cursor = cursor' }, cursor')

  -- The `for` loop of `claim_up_to`: the slots left behind, the batch, and the count claimed.
  unfoldable pub claim_slots :
      ℕ → ℕ → ℕ → List (ℕ × Option E) → Run (List (ℕ × Option E) × List (ℕ × E) × ℕ)
  claim_slots n cursor claimed [] = returns ([], [], claimed)
  claim_slots n cursor claimed ((o, slot) ∷ rest) =
      let skipped = claim_slots n cursor claimed rest in
      let taken = claim_slots n cursor (claimed + 1) rest in
      if claimed == n
      then returns ((o, slot) ∷ rest, [], claimed)
      else if ltb o cursor
      then skipped >>= (λ r. returns ((o, slot) ∷ r.0, r.1, r.2))
      else if not (o == add_u64 cursor claimed)
      then returns ((o, slot) ∷ rest, [], claimed)
      else elim slot [
        | none ↦ panics
        | some e ↦ taken >>= (λ r. returns ((o, none) ∷ r.0, (o, e) ∷ r.1, r.2))
      ]

  unfoldable pub claim_up_to : ℕ → Inbox E → Run (Inbox E × List (ℕ × E) × ℕ)
  unfolding claim_slots
  claim_up_to n q =
      claim_slots n q.cursor 0 q.queue >>= (λ r. returns (record q { queue = r.0 }, r.1, r.2))

  -- One iteration of `restore_claims`: the slot of the offset must be there, at or past the cursor,
  -- and a tombstone.
  unfoldable pub restore_slot : ℕ → ℕ → E → List (ℕ × Option E) → Run (List (ℕ × Option E))
  restore_slot cursor o e [] = panics
  restore_slot cursor o e ((front, slot) ∷ rest) =
      let later = restore_slot cursor o e rest in
      if front == o
      then (if ltb o cursor
          then panics
          else elim slot [ some e' ↦ panics | none ↦ returns ((front, some e) ∷ rest) ])
      else (later >>= λ rest'. returns ((front, slot) ∷ rest'))

  unfoldable pub restore_slots : ℕ → List (ℕ × E) → List (ℕ × Option E) → Run (List (ℕ × Option E))
  unfolding restore_slot
  restore_slots cursor [] slots = returns slots
  restore_slots cursor ((o, e) ∷ batch) slots =
      restore_slot cursor o e slots >>= restore_slots cursor batch

  unfoldable pub restore_claims : List (ℕ × E) → Inbox E → Run (Inbox E × Bool)
  unfolding restore_slots
  restore_claims batch q = restore_slots q.cursor batch q.queue >>= λ slots.
      returns (record q { queue = slots }, not (is_empty_list batch))

  -- The `while` loop of `commit_through`, and whether it popped.
  unfoldable pub pop_through : ℕ → List (ℕ × Option E) → List (ℕ × Option E)
  pop_through offset [] = []
  pop_through offset ((front, slot) ∷ rest) =
      let popped = pop_through offset rest in
      if leb front offset then popped else (front, slot) ∷ rest

  unfoldable pub pops_any : ℕ → List (ℕ × Option E) → Bool
  pops_any offset [] = false
  pops_any offset ((front, slot) ∷ rest) = leb front offset

  unfoldable pub commit_through : ℕ → Inbox E → Run (Inbox E × Bool)
  unfolding pop_through pops_any
  commit_through offset q =
      if leb q.next_offset offset
      then panics
      else returns (
        record q { queue = pop_through offset q.queue; cursor = add_u64 offset 1 },
        pops_any offset q.queue,
      )

  unfoldable pub len : Inbox E → ℕ
  len q = length q.queue
