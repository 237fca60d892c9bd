-- ===== src/Actor/Recovery.antt =====
-- A recovery from the journal, and what a snapshot's anchor has to be for it.
use mathlib.Core.List.{foldl-append}
use trouper.Prelude.{
  sym, ap, ◌∙◌, ◌≤◌, length, ℕ, zero, suc, ◌-◌, ◌≤◌, ◌<◌, ◌≡◌, refl, sym, ap, ◌∙◌, Option, none,
  some, List, [], ◌∷◌, ◌++◌, foldl, arith, length, take, drop, retain,
}
use trouper.Journal.{
  events_of, last_seq, last_snapshot_of, append_snapshot, is_after, event, snapshot, SeqNo,
  JournalEntry, event, snapshot, Journal, last_seq, append_snapshot, last_snapshot_of,
  last_snapshot, is_after, events_of, replay,
}
use trouper.Journal.Seqs.{IsDense, events_of-after, events_of-after_genesis}
use trouper.Actor.{EventSourced, recover}

take-append-drop {ℓ} : {A : Type ℓ} (n : ℕ) (xs : List A) → take n xs ++ drop n xs ≡ xs
take-append-drop zero xs = refl
take-append-drop (suc n) [] = refl
take-append-drop (suc n) (x ∷ xs) = rw (take-append-drop n xs)

module _ {P S : Type 0} (a : EventSourced P S) where
  open a use {State, Args, restore, apply, restore_from, capture, restore_from-capture}

  -- The live state: the fold of every event of the journal.
  abbrev pub fold : Args → Journal P S → State
  fold args j = foldl apply (restore args) (events_of j.entries)

  -- The latest snapshot is anchored at an event of the journal, and holds the fold of the events up
  -- to that one.
  abbrev pub IsFaithful : Args → Journal P S → Type 0
  IsFaithful args j =
      (seq : SeqNo) (state : S)
      → last_snapshot j ≡ some (seq, state)
      → (seq < j.event_count)
        × (restore_from state
            ≡ some (foldl apply (restore args) (take (suc seq) (events_of j.entries))))

  recover-at :
      (args : Args) (j : Journal P S) (o : Option (SeqNo × S))
      → last_snapshot j ≡ o
      → IsDense j
      → IsFaithful args j
      → recover a args (replay j) ≡ some (fold args j)
  unfolding recover replay
  recover-at args j none e d f = ground (arith, events_of-after_genesis j.entries)
  recover-at args j (some (seq, state)) e d f = ground (
    arith,
    f seq state e,
    events_of-after 0 seq (suc seq) j.entries (omega (arith, (f seq state e).0, d.fits))
        (omega arith) d.dense,
    sym (
        foldl-append apply (restore args) (take (suc seq) (events_of j.entries))
          (drop (suc seq) (events_of j.entries))),
    take-append-drop (suc seq) (events_of j.entries),
  )

  -- The fast path is exact: if the latest snapshot holds the fold of the events up to its anchor, a
  -- recovery rebuilds the fold of the whole journal, with and without a snapshot.
  pub recover-eq-fold :
      (args : Args) (j : Journal P S)
      → IsDense j
      → IsFaithful args j
      → recover a args (replay j) ≡ some (fold args j)
  recover-eq-fold args j = recover-at args j (last_snapshot j) refl

  last_snapshot-snoc :
      (seq : SeqNo) (state : S) (xs : List (JournalEntry P S))
      → last_snapshot_of (xs ++ snapshot seq state ∷ []) ≡ some (seq, state)
  last_snapshot-snoc seq state [] = refl
  last_snapshot-snoc seq state (event s ev o i ∷ rest) = last_snapshot-snoc seq state rest
  last_snapshot-snoc seq state (snapshot s st ∷ rest) =
      ground (arith, last_snapshot-snoc seq state rest)

  retain-snapshot :
      (k seq : ℕ) (state : S) (xs : List (JournalEntry P S))
      → retain (is_after k) (xs ++ snapshot seq state ∷ []) ≡ retain (is_after k) xs
  retain-snapshot k seq state [] = refl
  retain-snapshot k seq state (event s ev o i ∷ rest) =
      ground (arith, retain-snapshot k seq state rest)
  retain-snapshot k seq state (snapshot s st ∷ rest) = retain-snapshot k seq state rest

  -- What a snapshot of the live state does to a recovery, by its anchor: the live state comes back
  -- with the events behind the anchor folded in once more. At the last event of the journal there
  -- are none, and the recovery is exact.
  pub recover-snapshot_live :
      (args : Args) (j : Journal P S) (anchor : SeqNo) (blob : S) (now : ℕ)
      → IsDense j
      → anchor < j.event_count
      → capture (fold args j) ≡ some blob
      → recover a args (replay (append_snapshot anchor blob now j))
        ≡ some (foldl apply (fold args j) (drop (suc anchor) (events_of j.entries)))
  unfolding recover replay append_snapshot
  recover-snapshot_live args j anchor blob now d b c = ground (
    arith,
    last_snapshot-snoc anchor blob j.entries,
    retain-snapshot anchor anchor blob j.entries,
    restore_from-capture (fold args j) blob c,
    events_of-after 0 anchor (suc anchor) j.entries (omega (arith, b, d.fits)) (omega arith)
        d.dense,
  )

  drop-length {ℓ} : {A : Type ℓ} (n : ℕ) (xs : List A) → length xs ≤ n → drop n xs ≡ []
  drop-length zero [] h = refl
  drop-length zero (x ∷ xs) h = absurd (omega arith)
  drop-length (suc n) [] h = refl
  drop-length (suc n) (x ∷ xs) h = drop-length n xs (omega arith)

  -- The idle snapshot, at the last event of the journal, is exact.
  pub recover-snapshot_last :
      (args : Args) (j : Journal P S) (blob : S) (now : ℕ)
      → IsDense j
      → 1 ≤ j.event_count
      → capture (fold args j) ≡ some blob
      → recover a args (replay (append_snapshot (last_seq j) blob now j)) ≡ some (fold args j)
  unfolding last_seq
  recover-snapshot_last args j blob now d one c =
      recover-snapshot_live args j (j.event_count - 1) blob now d (omega arith) c
      ∙ ap (λ es. some (foldl apply (fold args j) es))
          (drop-length (suc (j.event_count - 1)) (events_of j.entries) (omega (arith, d.counted)))
