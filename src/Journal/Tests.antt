-- ===== src/Journal/Tests.antt =====
-- Runs of a journal.
use trouper.Prelude.{◌≡◌, refl, [], ◌∷◌, arith}
use trouper.Journal.{append_snapshot, last_snapshot, events_of, replay, append_events}
use trouper.Journal.Seqs.{IsDense}
use trouper.Journal.Append.{append_events-IsDense}
use trouper.Actor.Tests.{added, two_events, two_events-IsDense}

append_events-IsDense_example :
    let r = append_events (added 3 ∷ added 4 ∷ []) 9 two_events in
    IsDense r.0
    × (events_of r.0.entries ≡ added 5 ∷ added 7 ∷ added 3 ∷ added 4 ∷ [])
    × (r.1 ≡ 2 ∷ 3 ∷ [])
    × (r.0.event_count ≡ 4)
    × (r.2 ≡ 11)
    × (last_snapshot r.0 ≡ last_snapshot two_events)
append_events-IsDense_example =
    append_events-IsDense (added 3 ∷ added 4 ∷ []) 9 two_events two_events-IsDense (omega arith)
      (omega arith)

replays_behind_the_snapshot : (replay (append_snapshot 0 5 40 two_events)).tail ≡ added 7 ∷ []
unfolding replay append_snapshot
replays_behind_the_snapshot = refl
