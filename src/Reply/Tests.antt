-- ===== src/Reply/Tests.antt =====
-- Runs of the reply table.
use trouper.Prelude.{◌≤◌, String, ◌≡◌, refl, true, false, List, [], ◌∷◌, ◌++◌}
use trouper.Reply.{
  no_slots, complete, run_op, prune_slots, remove, holds, open_lease, Op, opens, completes, cancels,
  prunes, run_ops,
}
use trouper.Reply.Leases.{replies, replies-le_openings}
use trouper.Reply.Waiting.{open_lease-complete}

-- Lease 3 is answered twice, once it is open.
abbrev two_answers : List (Op String)
two_answers = opens 3 10 0 ∷ completes 3 "yes" ∷ completes 3 "again" ∷ []

replies-le_openings_example : replies 3 (run_ops (λ l. true) two_answers no_slots) ≤ 1
replies-le_openings_example = replies-le_openings (λ l. true) 3 two_answers

abbrev others : List (Op String)
others = opens 4 10 2 ∷ cancels 4 ∷ prunes 9 ∷ []

open_lease-complete_example :
    ((complete (λ l. true) 3 "yes" (run_ops (λ l. true) others (open_lease 3 10 0 no_slots))).1
      ≡ true)
    × ((complete
          (λ l. true)
          3
          "yes"
          (run_ops (λ l. true) others (open_lease 3 10 0 no_slots))).0.sent
        ≡ (run_ops (λ l. true) others (open_lease 3 10 0 no_slots)).sent ++ (3, "yes") ∷ [])
open_lease-complete_example =
    open_lease-complete (λ l. true) 3 10 0 "yes" others no_slots (refl, (refl, (refl, tt)))

-- A lease that expired is gone at the next pruning.
too_late :
    (complete {P = String}
      (λ l. true)
      3
      "yes"
      (run_ops (λ l. true) (prunes 10 ∷ []) (open_lease 3 10 0 no_slots))).1
    ≡ false
unfolding complete run_ops run_op open_lease prune_slots remove holds
too_late = refl
