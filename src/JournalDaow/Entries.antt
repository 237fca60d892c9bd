-- ===== src/JournalDaow/Entries.antt =====
-- Journal entries as src/journal_daow.rs captures them: rows and the last snapshot of a stretch.
use trouper.Prelude.{
  ℕ, suc, ◌+◌, ◌≤◌, String, ◌≡◌, refl, sym, ap, subst, ◌∙◌, inl, inr, Option, none, some, List, [],
  ◌∷◌, ◌++◌, map, arith, Option-cases, length, some-inj, some≢none,
}
use trouper.Journal.{
  SeqNo, JournalEntry, event, snapshot, JournaledEvent, journaled_of, last_snapshot_of,
}
use trouper.Journal.Seqs.{Dense}
use trouper.JournalDaow.Rows.{Codec, row_of, text_of, serialize_event}
use trouper.JournalDaow.Rows.RoundTrip.{Counted}
use trouper.JournalDaow.Database.{Database}
use trouper.JournalDaow.Flush.{collect_entries}
use trouper.JournalDaow.Ledger.{Anchored}

abbrev pub or_older : {A : Type 0} → Option A → Option A → Option A
or_older none old = old
or_older (some new) old = some new

module _ {P : Type 0} where
  pub Counted-append :
      (k n : ℕ) (xs ys : List (JournaledEvent P))
      → k + length xs ≡ n
      → Counted k xs
      → Counted n ys
      → Counted k (xs ++ ys)
  Counted-append k n [] ys e h g = subst (λ i. Counted i ys) (omega (arith, e)) g
  Counted-append k n (x ∷ xs) ys e h g =
      (h.0, Counted-append (suc k) n xs ys (omega (arith, e)) h.1 g)

  pub Counted-split :
      (k : ℕ) (xs ys : List (JournaledEvent P))
      → Counted k (xs ++ ys)
      → Counted k xs × Counted (k + length xs) ys
  Counted-split k [] ys h = (tt, subst (λ i. Counted i ys) (omega arith) h)
  Counted-split k (x ∷ xs) ys h =
      let r = Counted-split (suc k) xs ys h.1 in
      ((h.0, r.0), subst (λ i. Counted i ys) (omega arith) r.1)

module _ {P S : Type 0} where
  pub journaled_of-append :
      (xs ys : List (JournalEntry P S))
      → journaled_of (xs ++ ys) ≡ journaled_of xs ++ journaled_of ys
  journaled_of-append [] ys = refl
  journaled_of-append (event seq ev o i ∷ xs) ys =
      ap (λ l. record { seq = seq; journaled = ev; origin = o; ingest_seq = i } ∷ l)
        (journaled_of-append xs ys)
  journaled_of-append (snapshot seq state ∷ xs) ys = journaled_of-append xs ys

  pub last_snapshot_of-append :
      (xs ys : List (JournalEntry P S))
      → last_snapshot_of (xs ++ ys) ≡ or_older (last_snapshot_of ys) (last_snapshot_of xs)
  last_snapshot_of-append [] ys = elim (Option-cases (last_snapshot_of ys)) [
    | inl e ↦ rw e refl
    | inr (x, e) ↦ rw e refl
  ]
  last_snapshot_of-append (event seq ev o i ∷ xs) ys = last_snapshot_of-append xs ys
  last_snapshot_of-append (snapshot seq state ∷ xs) ys = elim (Option-cases (last_snapshot_of ys)) [
    | inl e ↦ rw (last_snapshot_of-append xs ys, e) refl
    | inr (x, e) ↦ rw (last_snapshot_of-append xs ys, e) refl
  ]

  pub Dense-Counted :
      (k : ℕ) (xs : List (JournalEntry P S)) → Dense k xs → Counted k (journaled_of xs)
  Dense-Counted k [] h = tt
  Dense-Counted k (event seq ev o i ∷ xs) h = (h.0, Dense-Counted (suc k) xs h.1)
  Dense-Counted k (snapshot seq state ∷ xs) h = Dense-Counted k xs h

  pub Anchored-last :
      (lo : ℕ) (xs : List (JournalEntry P S)) (seq : SeqNo) (state : S)
      → Anchored lo xs
      → last_snapshot_of xs ≡ some (seq, state)
      → lo ≤ seq
  Anchored-last lo [] seq state h e = absurd (some≢none (sym e))
  Anchored-last lo (event s ev o i ∷ xs) seq state h e = Anchored-last lo xs seq state h e
  Anchored-last lo (snapshot s st ∷ xs) seq state h e = elim (Option-cases (last_snapshot_of xs)) [
    | inl n ↦
        let same : ◌≡◌ {A = SeqNo × S} (s, st) (seq, state) = some-inj (rw n at e) in
        omega (arith, h.0, ap (λ (p : SeqNo × S). p.0) same)
    | inr ((s', st'), n) ↦
        let same : ◌≡◌ {A = SeqNo × S} (s', st') (seq, state) = some-inj (rw n at e) in
        omega (arith, h.0, Anchored-last s xs s' st' h.1 n, ap (λ (p : SeqNo × S). p.0) same)
  ]

  -- A snapshot behind another one has an anchor that is not lower.
  pub Anchored-newer :
      (lo : ℕ) (xs ys : List (JournalEntry P S)) (old new : SeqNo) (st st' : S)
      → Anchored lo (xs ++ ys)
      → last_snapshot_of xs ≡ some (old, st)
      → last_snapshot_of ys ≡ some (new, st')
      → old ≤ new
  Anchored-newer lo [] ys old new st st' h e f = absurd (some≢none (sym e))
  Anchored-newer lo (event s ev o i ∷ xs) ys old new st st' h e f =
      Anchored-newer lo xs ys old new st st' h e f
  Anchored-newer lo (snapshot s stt ∷ xs) ys old new st st' h e f =
      elim (Option-cases (last_snapshot_of xs)) [
        | inl n ↦
            let same : ◌≡◌ {A = SeqNo × S} (s, stt) (old, st) = some-inj (rw n at e) in
            omega (
              arith,
              Anchored-last s (xs ++ ys) new st' h.1
                  (last_snapshot_of-append xs ys ∙ ap (λ o. or_older o (last_snapshot_of xs)) f),
              ap (λ (p : SeqNo × S). p.0) same,
            )
        | inr (x, n) ↦ Anchored-newer s xs ys old new st st' h.1 (n ∙ rw n at e) f
      ]

  pub Anchored-prefix :
      (lo : ℕ) (xs ys : List (JournalEntry P S)) → Anchored lo (xs ++ ys) → Anchored lo xs
  Anchored-prefix lo [] ys h = tt
  Anchored-prefix lo (event seq ev o i ∷ xs) ys h = Anchored-prefix lo xs ys h
  Anchored-prefix lo (snapshot seq state ∷ xs) ys h = (h.0, Anchored-prefix seq xs ys h.1)

module _ (d : Database) {P S : Type 0} (c : Codec P S) where
  pub collect_entries-rows :
      (xs : List (JournalEntry P S)) (latest : Option (SeqNo × String))
      → collect_entries d c xs latest
        ≡ (map (row_of c) (journaled_of xs), or_older (text_of c (last_snapshot_of xs)) latest)
  unfolding collect_entries serialize_event
  collect_entries-rows [] latest = refl
  collect_entries-rows (event seq ev o i ∷ xs) latest = rw (collect_entries-rows xs latest) refl
  collect_entries-rows (snapshot seq state ∷ xs) latest =
      elim (Option-cases (last_snapshot_of xs)) [
        | inl n ↦ rw (collect_entries-rows xs (some (seq, c.state_text state)), n) refl
        | inr (x, n) ↦ rw (collect_entries-rows xs (some (seq, c.state_text state)), n) refl
      ]
