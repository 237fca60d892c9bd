-- ===== src/Inbox/Tests.antt =====
-- Runs of the inbox.
use trouper.Prelude.{ℕ, ◌≡◌, refl, true, some, [], ◌∷◌, arith, returns, ◌>>=◌, IfReturns}
use trouper.Inbox.{
  block, drop_old, full, evicted, err, Inbox, new, queue_next, evict_front, push_full, push,
  claim_up_to, restore_claims, commit_through,
}
use trouper.Inbox.Wf.{IsWf, claims, call, call-IsWf}
use trouper.Inbox.Claims.{IsSettled, push-between_claim_restore}
use trouper.Inbox.Commits.{commit_each}

-- Three envelopes queued behind a cursor that has moved.
abbrev three_queued : Inbox ℕ
three_queued = record {
  capacity = 3;
  policy = block;
  next_offset = 5;
  cursor = 2;
  queue = (2, some 20) ∷ (3, some 30) ∷ (4, some 40) ∷ [];
  opened = true;
}

abbrev full_drop_old : Inbox ℕ
full_drop_old = record three_queued { policy = drop_old }

three_queued-IsWf : IsWf three_queued
three_queued-IsWf = record {
  numbered = omega arith;
  ends = omega arith;
  fits = omega arith;
  room = omega arith;
}

three_queued-IsSettled : IsSettled three_queued (20 ∷ 30 ∷ 40 ∷ [])
three_queued-IsSettled = record { holds = refl; ends = omega arith; fits = omega arith }

full_drop_old-IsSettled : IsSettled full_drop_old (20 ∷ 30 ∷ 40 ∷ [])
full_drop_old-IsSettled = record { holds = refl; ends = omega arith; fits = omega arith }

fills_up :
    (push {E = ℕ} 1 (new 1 block) >>= λ r. push 2 r.0 >>= λ s. returns s.1) ≡ returns (err (full 2))
unfolding push new queue_next
fills_up = refl

evicts :
    push 50 full_drop_old
    ≡ returns (
      record full_drop_old {
        queue = (3, some 30) ∷ (4, some 40) ∷ (5, some 50) ∷ [];
        cursor = 3;
        next_offset = 6;
      },
      err (evicted 20),
    )
unfolding push queue_next push_full evict_front
evicts = refl

commits_two :
    (claim_up_to 2 three_queued >>= λ r. commit_each r.1 r.0)
    ≡ returns (record three_queued { queue = (4, some 40) ∷ []; cursor = 4 }, true)
unfolding claim_up_to commit_each commit_through
commits_two = refl

call-IsWf_example : IfReturns IsWf (call (claims 2) three_queued)
call-IsWf_example = call-IsWf (claims 2) three_queued three_queued-IsWf tt

push-between_claim_restore_example :
    (claim_up_to 2 three_queued >>= λ r.
    push 50 r.0 >>= λ p. restore_claims r.1 p.0 >>= λ s. returns (s.0, p.1))
    ≡ push 50 three_queued
push-between_claim_restore_example =
    push-between_claim_restore 2 50 three_queued (20 ∷ 30 ∷ 40 ∷ []) three_queued-IsSettled
      (λ e. cc)
