-- ===== src/Actor/Tests.antt =====
-- A counter actor, and recoveries of it on concrete journals.
use trouper.Prelude.{
  ℕ, suc, ◌+◌, ◌<◌, ◌≡◌, refl, sym, subst, none, some, [], ◌∷◌, foldl, arith, take,
}
use trouper.Journal.{Event, recorded, event, snapshot, Journal, last_snapshot, replay}
use trouper.Journal.Seqs.{IsDense}
use trouper.Actor.{EventSourced, recover}
use trouper.Actor.Recovery.{IsFaithful, recover-eq-fold}

-- Its state is the sum of its events.
abbrev pub counter : EventSourced ℕ ℕ
counter = record {
  State = ℕ;
  Args = ℕ;
  restore = λ n. n;
  apply = λ st ev. st + ev.payload;
  capture = λ st. some st;
  restore_from = λ blob. some blob;
  restore_from-capture = λ s blob e. sym e;
}

abbrev pub added : ℕ → Event ℕ
added n = record { schema = "acme/Added/v1"; payload = n }

abbrev pub two_events : Journal ℕ ℕ
two_events = record {
  entries = event 0 (added 5) recorded 0 ∷ event 1 (added 7) recorded 1 ∷ [];
  event_count = 2;
  last_snapshot_ms = none;
}

abbrev with_snapshot : Journal ℕ ℕ
with_snapshot = record {
  entries = event 0 (added 5) recorded 0 ∷ snapshot 0 5 ∷ event 1 (added 7) recorded 1 ∷ [];
  event_count = 2;
  last_snapshot_ms = some 40;
}

pub two_events-IsDense : IsDense two_events
two_events-IsDense = record { dense = (refl, (refl, tt)); counted = refl; fits = omega arith }

with_snapshot-IsDense : IsDense with_snapshot
with_snapshot-IsDense = record { dense = (refl, (refl, tt)); counted = refl; fits = omega arith }

with_snapshot-IsFaithful : IsFaithful counter 0 with_snapshot
unfolding last_snapshot
with_snapshot-IsFaithful seq state e =
    subst
      (λ (p : ℕ × ℕ).
        (p.0 < 2)
        × (some p.1 ≡ some (foldl (counter.apply) 0 (take (suc p.0) (added 5 ∷ added 7 ∷ [])))))
      pair (omega arith, refl)
  where
    pair : ◌≡◌ {A = ℕ × ℕ} (0, 5) (seq, state)
    pair = cc

recover-eq-fold_example : recover counter 0 (replay with_snapshot) ≡ some 12
recover-eq-fold_example =
    recover-eq-fold counter 0 with_snapshot with_snapshot-IsDense with_snapshot-IsFaithful
