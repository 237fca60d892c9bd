-- ===== src/Kernel/Snapshot/Faults.antt =====
-- What the message cadence of src/kernel.rs leaves for a recovery: short batches, and batches that
-- end behind a boundary.
use mathlib.Core.List.{foldl-append}
use trouper.Prelude.{
  ℕ, zero, suc, ◌+◌, ◌-◌, ◌%◌, ◌≤◌, ◌<◌, ◌≡◌, refl, sym, ap, ◌∙◌, Option, none, some, List, [], ◌∷◌,
  ◌++◌, foldl, append_assoc, append-nil, arith, ◌==◌, if◌then◌else◌, u64_mod, u64_max, length, drop,
}
use trouper.Journal.{
  Event, snapshot, Journal, append_snapshot, last_snapshot, events_of, replay, append_events,
}
use trouper.Journal.Seqs.{IsDense, append_snapshot-IsDense, events_of-append}
use trouper.Journal.Append.{count_from, append_events-IsDense}
use trouper.Actor.{EventSourced, recover}
use trouper.Actor.Recovery.{fold, recover-snapshot_live}
use trouper.Kernel.Snapshot.{
  messages, SnapshotCadence, last_of, maybe_snapshot, snapshot_now, snapshot_each, commit_batch,
  anchors_between, first_boundary,
}
use trouper.Kernel.Snapshot.Anchors.{anchors_between-Boundaries, Boundaries, Boundaries-last}

-- A batch of one event is never long enough for a snapshot.
maybe_snapshot-single :
    (n s : ℕ) → 2 ≤ n → s < u64_max → maybe_snapshot (messages n) (s ∷ []) ≡ some []
unfolding maybe_snapshot anchors_between
maybe_snapshot-single n s two b = ground arith

pub last_of-count_from :
    (n k m : ℕ) → last_of m (count_from n k) ≡ (if k == 0 then m else n + k - 1)
last_of-count_from n zero m = refl
last_of-count_from n (suc k) m = ground (arith, last_of-count_from (n + 1) k n)

nonempty-anchors :
    (n first last boundary : ℕ) (l : List ℕ)
    → (boundary + 1) % n ≡ 0
    → boundary ≤ last
    → Boundaries n last boundary l
    → (x : ℕ) × (xs : List ℕ) × (l ≡ x ∷ xs)
      × (last_of x xs ≤ last)
      × (last < last_of x xs + n)
      × ((last_of x xs + 1) % n ≡ 0)
nonempty-anchors n first last boundary [] m b bs = absurd (omega arith)
nonempty-anchors n first last boundary (x ∷ xs) m b bs =
    let r = Boundaries-last n last boundary x xs m bs in (x, xs, refl, r.0, r.1, r.2)

-- The anchors of a batch that is long enough.
pub batch-anchors :
    (n c k : ℕ)
    → 1 ≤ n
    → n ≤ suc k
    → c + suc k + n < u64_max
    → (x : ℕ) × (xs : List ℕ) × (maybe_snapshot (messages n) (count_from c (suc k)) ≡ some (x ∷ xs))
      × (last_of x xs ≤ c + k)
      × (c + k < last_of x xs + n)
      × ((last_of x xs + 1) % n ≡ 0)
unfolding maybe_snapshot
batch-anchors n c k one long f =
    let (l, e, bs, m, _, up) =
      anchors_between-Boundaries n c (c + k) one (omega arith) (omega arith) in
    let (x, xs, le, low, high, rest) =
      nonempty-anchors n c (c + k) (first_boundary n c) l m (omega arith) bs in
    (x, xs, ground (arith, e, le, last_of-count_from (c + 1) k c), low, high, rest)

module _ {P S : Type 0} (a : EventSourced P S) where
  open a use {State, Args, restore, apply, capture}

  -- Events that arrive one by one, each its own batch.
  unfoldable pub commit_singly :
      SnapshotCadence → ℕ → ℕ → List (Event P) → State × Journal P S → Option (State × Journal P S)
  unfolding commit_batch
  commit_singly cadence now ingest [] s = some s
  commit_singly cadence now ingest (ev ∷ evs) s =
      elim (commit_batch a cadence now ingest (ev ∷ []) s) [
        | none ↦ none
        | some s' ↦ commit_singly cadence now (ingest + 1) evs s'
      ]

  -- However many events arrive one by one, a message cadence of two or more never takes a snapshot:
  -- all of them are journaled and folded, and the latest snapshot stays what it was.
  pub commit_singly-messages :
      (n now : ℕ) (evs : List (Event P)) (ingest : ℕ) (st : State) (j : Journal P S)
      → 2 ≤ n
      → IsDense j
      → j.event_count + length evs < u64_max
      → ingest + length evs < u64_mod
      → (j' : Journal P S) × (commit_singly (messages n) now ingest evs (st, j)
          ≡ some (foldl apply st evs, j'))
        × (events_of j'.entries ≡ events_of j.entries ++ evs)
        × (last_snapshot j' ≡ last_snapshot j)
  unfolding commit_singly commit_batch snapshot_each
  commit_singly-messages n now [] ingest st j two d f g = (j, refl, sym (append-nil _), refl)
  commit_singly-messages n now (ev ∷ evs) ingest st j two d f g =
      let r = append_events-IsDense (ev ∷ []) ingest j d (omega arith) (omega arith) in
      let j1 = (append_events (ev ∷ []) ingest j).0 in
      let rest =
        commit_singly-messages n now evs (ingest + 1) (apply st ev) j1 two r.0 (omega (arith, r.3))
          (omega arith) in
      (
        rest.0,
        ground (arith, single, rest.1),
        rest.2 ∙ ap (◌++ evs) r.1 ∙ append_assoc (events_of j.entries) (ev ∷ []) evs,
        rest.3 ∙ r.5,
      )
    where
      single : maybe_snapshot (messages n) (append_events (ev ∷ []) ingest j).1 ≡ some []
      single =
          let r = append_events-IsDense (ev ∷ []) ingest j d (omega arith) (omega arith) in
          ap (maybe_snapshot (messages n)) r.2 ∙ maybe_snapshot-single n j.event_count two d.fits

  snapshot_now-append :
      (now : ℕ) (st : State) (blob : S) (x : ℕ) (j : Journal P S)
      → capture st ≡ some blob
      → snapshot_now a now st x j ≡ append_snapshot x blob now j
  unfolding snapshot_now
  snapshot_now-append now st blob x j c = rw (c, snapshot_now) refl

  snapshot_each-recover :
      (args : Args) (now : ℕ) (st : State) (blob : S) (x : ℕ) (xs : List ℕ) (j : Journal P S)
      → IsDense j
      → fold a args j ≡ st
      → capture st ≡ some blob
      → last_of x xs < j.event_count
      → recover a args (replay (snapshot_each a now st (x ∷ xs) j))
        ≡ some (foldl apply st (drop (suc (last_of x xs)) (events_of j.entries)))
  unfolding snapshot_each snapshot_now append_snapshot
  snapshot_each-recover args now st blob x [] j d e c b =
      ground (arith, c, e, recover-snapshot_live a args j x blob now d b (ap capture e ∙ c))
  snapshot_each-recover args now st blob x (y ∷ ys) j d e c b =
      let same : events_of (append_snapshot x blob now j).entries ≡ events_of j.entries =
        events_of-append j.entries (snapshot x blob ∷ []) ∙ append-nil _ in
      let ih =
        snapshot_each-recover args now st blob y ys (append_snapshot x blob now j)
          (append_snapshot-IsDense x blob now j d) (ap (foldl apply (a.restore args)) same ∙ e) c
          b in
      ap (λ j0. recover a args (replay (snapshot_each a now st (y ∷ ys) j0)))
        (snapshot_now-append now st blob x j c)
      ∙ ih
      ∙ ap (λ es. some (foldl apply st (drop (suc (last_of y ys)) es))) same

  -- A batch of at least `n` events, under the message cadence `n` and below the end of the 64-bit
  -- range, is journaled and folded; its last snapshot stands at a boundary with fewer than `n` events
  -- behind it. Since the state it captures has already folded those events in, a recovery folds them
  -- in a second time.
  pub commit_batch-recover :
      (args : Args) (n now : ℕ) (evs : List (Event P)) (ingest : ℕ) (j : Journal P S) (blob : S)
      → 1 ≤ n
      → n ≤ length evs
      → IsDense j
      → j.event_count + length evs + n < u64_max
      → ingest + length evs < u64_mod
      → capture (foldl apply (fold a args j) evs) ≡ some blob
      → let st' = foldl apply (fold a args j) evs in
        (j' : Journal P S) × (b : ℕ) × (commit_batch a
            (messages n)
            now
            ingest
            evs
            (fold a args j, j)
          ≡ some (st', j'))
        × (b < j.event_count + length evs)
        × (j.event_count + length evs ≤ b + n)
        × ((b + 1) % n ≡ 0)
        × (recover a args (replay j')
            ≡ some (foldl apply st' (drop (suc b) (events_of j.entries ++ evs))))
  unfolding commit_batch
  commit_batch-recover args n now [] ingest j blob one long d f g c = absurd (omega arith)
  commit_batch-recover args n now (ev ∷ evs) ingest j blob one long d f g c =
      let r = append_events-IsDense (ev ∷ evs) ingest j d (omega arith) g in
      let j1 = (append_events (ev ∷ evs) ingest j).0 in
      let st' = foldl apply (fold a args j) (ev ∷ evs) in
      let (x, xs, e, low, up, m) = batch-anchors n j.event_count (length evs) one long f in
      let live : fold a args j1 ≡ st' =
        ap (foldl apply (a.restore args)) r.1
        ∙ foldl-append apply (a.restore args) (events_of j.entries) (ev ∷ evs) in
      (
        snapshot_each a now st' (x ∷ xs) j1,
        last_of x xs,
        ground (arith, ap (maybe_snapshot (messages n)) r.2 ∙ e),
        omega arith,
        omega arith,
        m,
        snapshot_each-recover args now st' blob x xs j1 r.0 live c (omega (arith, r.3, low))
            ∙ ap (λ es. some (foldl apply st' (drop (suc (last_of x xs)) es))) r.1,
      )
