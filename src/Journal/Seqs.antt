-- ===== src/Journal/Seqs.antt =====
-- The event sequences of src/journal.rs: dense from 0, and never consumed by a snapshot.
use trouper.Prelude.{
  ℕ, zero, suc, ◌+◌, ◌-◌, ◌<◌, ◌≡◌, refl, ap, ◌∙◌, List, [], ◌∷◌, ◌++◌, append-nil, arith, u64_max,
  length, drop, retain, length-append,
}
use trouper.Journal.{
  SeqNo, before_genesis, Event, EventOrigin, JournalEntry, event, snapshot, Journal,
  append_event_with_origin, append_snapshot, is_after, events_of,
}

module _ {P S : Type 0} where
  abbrev pub Dense : ℕ → List (JournalEntry P S) → Type 0
  Dense k [] = Unit {0}
  Dense k (event seq ev origin ingest ∷ rest) = (seq ≡ k) × Dense (suc k) rest
  Dense k (snapshot seq state ∷ rest) = Dense k rest

  -- The event sequences count up from 0 in journal order, and the counter is their number, which
  -- stays below the sentinel of `before_genesis`.
  pub record IsDense (j : Journal P S) : Type 0 where
    pub dense : Dense 0 j.entries
    pub counted : length (events_of j.entries) ≡ j.event_count
    pub fits : j.event_count < u64_max

  pub events_of-append :
      (xs ys : List (JournalEntry P S)) → events_of (xs ++ ys) ≡ events_of xs ++ events_of ys
  events_of-append [] ys = refl
  events_of-append (event seq ev origin ingest ∷ rest) ys = ap (◌∷◌ ev) (events_of-append rest ys)
  events_of-append (snapshot seq state ∷ rest) ys = events_of-append rest ys

  Dense-snoc :
      (k : ℕ) (ev : Event P) (o : EventOrigin) (ingest n : ℕ) (xs : List (JournalEntry P S))
      → Dense k xs
      → k + length (events_of xs) ≡ n
      → Dense k (xs ++ event n ev o ingest ∷ [])
  Dense-snoc k ev o ingest n [] d e = omega arith
  Dense-snoc k ev o ingest n (event seq e' o' i' ∷ rest) d e =
      (d.0, Dense-snoc (suc k) ev o ingest n rest d.1 (omega arith))
  Dense-snoc k ev o ingest n (snapshot seq state ∷ rest) d e = Dense-snoc k ev o ingest n rest d e

  Dense-snapshot :
      (k seq : ℕ) (state : S) (xs : List (JournalEntry P S))
      → Dense k xs
      → Dense k (xs ++ snapshot seq state ∷ [])
  Dense-snapshot k seq state [] d = tt
  Dense-snapshot k seq state (event s e' o' i' ∷ rest) d =
      (d.0, Dense-snapshot (suc k) seq state rest d.1)
  Dense-snapshot k seq state (snapshot s st ∷ rest) d = Dense-snapshot k seq state rest d

  pub append-IsDense :
      (ev : Event P) (o : EventOrigin) (ingest : ℕ) (j : Journal P S)
      → IsDense j
      → j.event_count + 1 < u64_max
      → IsDense (append_event_with_origin ev o ingest j).0
  unfolding append_event_with_origin
  append-IsDense ev o ingest j d f = record {
    dense = Dense-snoc 0 ev o ingest j.event_count j.entries d.dense (omega (arith, d.counted));
    counted = omega (
      arith,
      d.counted,
      ap length (events_of-append j.entries (event j.event_count ev o ingest ∷ [])),
      length-append (events_of j.entries) (ev ∷ []),
    );
    fits = omega arith;
  }

  pub append_snapshot-IsDense :
      (seq : SeqNo) (state : S) (now : ℕ) (j : Journal P S)
      → IsDense j
      → IsDense (append_snapshot seq state now j)
  unfolding append_snapshot
  append_snapshot-IsDense seq state now j d = record {
    dense = Dense-snapshot 0 seq state j.entries d.dense;
    counted = omega (
      arith,
      d.counted,
      ap length (events_of-append j.entries (snapshot seq state ∷ []) ∙ append-nil _),
    );
    fits = d.fits;
  }

  -- The restore tail of a dense journal: what stands behind the anchor, by position.
  pub events_of-after :
      (k s n : ℕ) (xs : List (JournalEntry P S))
      → s < u64_max
      → suc s - k ≡ n
      → Dense k xs
      → events_of (retain (is_after s) xs) ≡ drop n (events_of xs)
  events_of-after k s zero [] b e d = refl
  events_of-after k s (suc n) [] b e d = refl
  events_of-after k s zero (event seq ev o i ∷ rest) b e d =
      ground (arith, events_of-after (suc k) s zero rest b (omega arith) d.1)
  events_of-after k s (suc n) (event seq ev o i ∷ rest) b e d =
      ground (arith, events_of-after (suc k) s n rest b (omega arith) d.1)
  events_of-after k s n (snapshot seq state ∷ rest) b e d = events_of-after k s n rest b e d

  -- From before the genesis every event is replayed.
  pub events_of-after_genesis :
      (xs : List (JournalEntry P S))
      → events_of (retain (is_after before_genesis) xs) ≡ events_of xs
  events_of-after_genesis [] = refl
  events_of-after_genesis (event seq ev o i ∷ rest) = ap (◌∷◌ ev) (events_of-after_genesis rest)
  events_of-after_genesis (snapshot seq state ∷ rest) = events_of-after_genesis rest
