-- ===== src/Kernel/Snapshot.antt =====
-- The snapshot cadence of src/kernel.rs: `maybe_snapshot`, `snapshot_now` and
-- `maybe_snapshot_on_idle`, over one in-memory journal.
pub mod Anchors
pub mod Faults
mod Tests
use trouper.Prelude.{
  ℕ, zero, suc, ◌+◌, ◌-◌, ◌*◌, ◌/◌, ◌%◌, ◌||◌, Option, none, some, List, [], ◌∷◌, foldl, ltb, ◌==◌,
  if◌then◌else◌, u64_mod, u64_max, add_u64, sub_u64,
}
use trouper.Journal.{append_events, SeqNo, Event, Journal, append_snapshot}
use trouper.Actor.{EventSourced}

pub data SnapshotCadence : Type 0 where
  off : SnapshotCadence
  messages : ℕ → SnapshotCadence
  -- with the interval in milliseconds
  time : ℕ → SnapshotCadence

abbrev pub cell_sentinel : ℕ
cell_sentinel = u64_max

-- `u64::div_ceil`
abbrev pub div_ceil : ℕ → ℕ → ℕ
div_ceil a n = (a + n - 1) / n

-- The first boundary at or behind `first`: `((first + 1).div_ceil(n) * n).saturating_sub(1)`.
unfoldable pub first_boundary : ℕ → ℕ → ℕ
first_boundary n first = (div_ceil (add_u64 first 1) n * n) % u64_mod - 1

-- The `loop` of `maybe_snapshot`, on fuel: the anchors at which it takes a snapshot.
unfoldable pub anchor_loop : ℕ → ℕ → ℕ → ℕ → Option (List ℕ)
anchor_loop zero n boundary last = none
anchor_loop (suc fuel) n boundary last =
    let next = add_u64 boundary n in
    let rest = anchor_loop fuel n next last in
    if ltb last next
    then some (boundary ∷ [])
    else elim rest [ none ↦ none | some more ↦ some (boundary ∷ more) ]

-- `maybe_snapshot` for a batch that was committed at `first` to `last`.
unfoldable pub anchors_between : ℕ → ℕ → ℕ → Option (List ℕ)
unfolding anchor_loop first_boundary
anchors_between n first last =
    if ltb (sub_u64 (add_u64 last 1) first) n
    then some []
    else anchor_loop (suc last) n (first_boundary n first) last

abbrev pub last_of : ℕ → List ℕ → ℕ
last_of x [] = x
last_of x (y ∷ ys) = last_of y ys

unfoldable pub maybe_snapshot : SnapshotCadence → List SeqNo → Option (List ℕ)
unfolding anchors_between
maybe_snapshot off seqs = some []
maybe_snapshot (time interval) seqs = some []
maybe_snapshot (messages n) [] = some []
maybe_snapshot (messages n) (first ∷ rest) =
    if n == 0 then some [] else anchors_between n first (last_of first rest)

-- `maybe_snapshot_on_idle`: the anchor of a snapshot that is due now.
unfoldable pub maybe_snapshot_on_idle : SnapshotCadence → ℕ → ℕ → ℕ → Option ℕ
maybe_snapshot_on_idle off anchor last_committed now = none
maybe_snapshot_on_idle (messages n) anchor last_committed now = none
maybe_snapshot_on_idle (time interval) anchor last_committed now =
    if anchor == cell_sentinel || last_committed == cell_sentinel
    then none
    else if ltb (now - anchor) interval
    then none
    else some last_committed

module _ {P S : Type 0} (a : EventSourced P S) where
  open a use {State, capture, apply}

  -- `snapshot_now`: captures the live state and appends it; a state that does not serialize takes
  -- no snapshot.
  unfoldable pub snapshot_now : ℕ → State → SeqNo → Journal P S → Journal P S
  snapshot_now now st last j = elim (capture st) [
    | none ↦ j
    | some blob ↦ append_snapshot last blob now j
  ]

  unfoldable pub snapshot_each : ℕ → State → List SeqNo → Journal P S → Journal P S
  unfolding snapshot_now
  snapshot_each now st [] j = j
  snapshot_each now st (anchor ∷ anchors) j =
      snapshot_each now st anchors (snapshot_now now st anchor j)

  -- Stages 5, 7 and 10 of `step_es`, for a batch that decided `events`: append them all, fold them
  -- all, then snapshot. `none` would be a loop without end.
  unfoldable pub commit_batch :
      SnapshotCadence → ℕ → ℕ → List (Event P) → State × Journal P S → Option (State × Journal P S)
  unfolding maybe_snapshot snapshot_each
  commit_batch cadence now ingest events (st, j) =
      let (j', seqs, ingest') = append_events events ingest j in
      let st' = foldl apply st events in
      elim (maybe_snapshot cadence seqs) [
        | none ↦ none
        | some anchors ↦ some (st', snapshot_each now st' anchors j')
      ]
