-- ===== src/Kernel/Snapshot/Tests.antt =====
-- Runs of the snapshot cadence.
use trouper.Prelude.{ℕ, suc, ◌+◌, ◌%◌, ◌≤◌, ◌<◌, ◌≡◌, refl, some, List, [], ◌∷◌, foldl, arith, drop}
use trouper.Journal.{Journal, last_snapshot, events_of, replay}
use trouper.Actor.{recover}
use trouper.Actor.Tests.{added, counter, two_events, two_events-IsDense}
use trouper.Kernel.Snapshot.{messages, anchors_between, anchor_loop, first_boundary, commit_batch}
use trouper.Kernel.Snapshot.Anchors.{Boundaries, anchors_between-Boundaries}
use trouper.Kernel.Snapshot.Faults.{commit_singly, commit_singly-messages, commit_batch-recover}

anchors_of_a_long_batch : anchors_between 3 1 9 ≡ some (2 ∷ 5 ∷ 8 ∷ [])
unfolding anchors_between anchor_loop first_boundary
anchors_of_a_long_batch = refl

anchors_between-Boundaries_example :
    (l : List ℕ) × (anchors_between 3 1 9 ≡ some l)
    × Boundaries 3 9 (first_boundary 3 1) l
    × ((first_boundary 3 1 + 1) % 3 ≡ 0)
    × (1 ≤ first_boundary 3 1)
    × (first_boundary 3 1 < 1 + 3)
anchors_between-Boundaries_example =
    anchors_between-Boundaries 3 1 9 (omega arith) (omega arith) (omega arith)

commit_singly-messages_example :
    (j' : Journal ℕ ℕ) × (commit_singly counter
        (messages 2)
        40
        2
        (added 1 ∷ added 1 ∷ [])
        (12, two_events)
      ≡ some (14, j'))
    × (events_of j'.entries ≡ added 5 ∷ added 7 ∷ added 1 ∷ added 1 ∷ [])
    × (last_snapshot j' ≡ last_snapshot two_events)
commit_singly-messages_example =
    commit_singly-messages counter 2 40 (added 1 ∷ added 1 ∷ []) 2 12 two_events (omega arith)
      two_events-IsDense (omega arith) (omega arith)

commit_batch-recover_example :
    (j' : Journal ℕ ℕ) × (b : ℕ) × (commit_batch counter
        (messages 3)
        40
        2
        (added 1 ∷ added 2 ∷ added 3 ∷ [])
        (12, two_events)
      ≡ some (18, j'))
    × (b < 5)
    × (5 ≤ b + 3)
    × ((b + 1) % 3 ≡ 0)
    × (recover counter 0 (replay j')
        ≡ some (
            foldl
              (counter.apply)
              18
              (drop (suc b) (added 5 ∷ added 7 ∷ added 1 ∷ added 2 ∷ added 3 ∷ []))))
commit_batch-recover_example =
    commit_batch-recover counter 0 3 40 (added 1 ∷ added 2 ∷ added 3 ∷ []) 2 two_events 18
      (omega arith) (omega arith) two_events-IsDense (omega arith) (omega arith) refl
