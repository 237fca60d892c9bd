-- ===== src/Journal/Store/Tests.antt =====
-- Runs of the in-memory store.
use mathlib.Core.List.{Perm}
use trouper.Prelude.{map, ℕ, ◌≡◌, refl, ◌≢◌, none, some, List, [], ◌∷◌, arith, eq_iff}
use trouper.Journal.{
  ActorPath, recorded, catch_up, event, Journal, ScannedEvent, next_seq, append_event_with_origin,
  holds_origin, append_catchup,
}
use trouper.Actor.Tests.{added, two_events}
use trouper.Journal.Store.{InMemoryJournalStore, scan}
use trouper.Journal.Store.CatchUp.{append_catchup-again}
use trouper.Journal.Store.Scan.{Arrived, wanted_in, origin_of, scan-Arrived}

abbrev other_events : Journal ℕ ℕ
other_events = record {
  entries =
      event 0 (added 1) recorded 2
      ∷ event 1 (added 5) (catch_up "a" 0) 3
      ∷ event 2 (added 9) recorded 4
      ∷ [];
  event_count = 3;
  last_snapshot_ms = none;
}

abbrev two_journals : InMemoryJournalStore ℕ ℕ
two_journals = record { journals = ("b", other_events) ∷ ("a", two_events) ∷ []; ingest = 5 }

abbrev facts : List (ScannedEvent ℕ)
facts =
    record { journal = "a"; seq = 0; ingest_seq = 0; scanned = added 5 }
    ∷ record { journal = "a"; seq = 1; ingest_seq = 1; scanned = added 7 }
    ∷ []

skips_what_it_holds : (append_catchup facts 5 other_events).1 ≡ none ∷ some 3 ∷ []
unfolding append_catchup holds_origin append_event_with_origin next_seq
skips_what_it_holds = refl

append_catchup-again_example :
    let j' = (append_catchup facts 5 other_events).0 in
    append_catchup facts 6 j' ≡ (j', none ∷ none ∷ [], 6)
append_catchup-again_example = append_catchup-again facts 5 6 other_events

other_path : ◌≢◌ {A = ActorPath} "b" "a"
other_path e = ground (arith, e, eq_iff "b" "a")

scan-Arrived_example :
    let found = scan ("acme/Added/v1" ∷ []) two_journals in
    Arrived 0 found
    × Perm (map origin_of found) (wanted_in ("acme/Added/v1" ∷ []) two_journals.journals)
scan-Arrived_example = scan-Arrived ("acme/Added/v1" ∷ []) two_journals
