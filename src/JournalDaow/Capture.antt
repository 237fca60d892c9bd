-- ===== src/JournalDaow/Capture.antt =====
-- A captured batch of src/journal_daow.rs continues what the database holds of its path.
use trouper.Prelude.{
  ◌≤◌, String, ◌≡◌, refl, sym, ap, subst, ◌∙◌, ◌⊎◌, inl, inr, Bool, true, false, Option, none, some,
  List, [], ◌∷◌, ◌++◌, map, arith, ◌==◌, Bool-cases, length, take, drop, All, contains,
  take-append-drop, take-length, take-split, some-inj, some≢none, NoDup,
}
use trouper.Journal.{ActorPath, SeqNo, journaled_of, last_snapshot_of, last_snapshot}
use trouper.JournalDaow.Rows.{Codec, EventRow, row_of, text_of}
use trouper.JournalDaow.Rows.RoundTrip.{Counted}
use trouper.JournalDaow.Database.{Database}
use trouper.JournalDaow.Buffers.{PathBuffer, Shared}
use trouper.JournalDaow.Flush.{PendingFlush, collect_buffer, collect_entries, collect_pending}
use trouper.JournalDaow.Ledger.{
  Ledger, Anchored, IsStored, IsBuffered, Holds, cold, waking, warm, IsCaptured,
}
use trouper.JournalDaow.Entries.{
  Counted-split, Dense-Counted, journaled_of-append, Anchored-newer, Anchored-prefix,
  collect_entries-rows, or_older,
}
use trouper.JournalDaow.Write.{Fits, paths_of}

or_older-none : {A : Type 0} (o : Option A) → or_older o none ≡ o
or_older-none none = refl
or_older-none (some a) = refl

module _ {P S : Type 0} (c : Codec P S) where
  text_of-some :
      (o : Option (SeqNo × S)) (n : SeqNo) (t : String)
      → text_of c o ≡ some (n, t)
      → (st : S) × (o ≡ some (n, st))
  text_of-some none n t h = absurd (some≢none (sym h))
  text_of-some (some (m, st)) n t h =
      (st, ap (λ k. some (k, st)) (ap (λ (p : SeqNo × String). p.0) (some-inj h)))

module _ (d : Database) {P S : Type 0} (c : Codec P S) where
  open d use {Db}

  -- The batch was captured of the live buffer at its path.
  abbrev pub CapturedAt : Shared d c → PendingFlush → Type 0
  CapturedAt s batch =
      (b : PathBuffer P S) × (s.journals batch.path ≡ some b)
      × (b.activation_in_progress ≡ false)
      × IsCaptured d c b batch

  pub Holds-warm :
      (path : ActorPath) (s : Shared d c) (l : Ledger P S) (b : PathBuffer P S)
      → Holds d c path s l
      → s.journals path ≡ some b
      → b.activation_in_progress ≡ false
      → IsBuffered d c path b s.db l
  Holds-warm path s l b (cold e h) f a = absurd (some≢none (sym f ∙ e))
  Holds-warm path s l b (waking e h) f a =
      let clash : ◌≡◌ {A = Bool} true false =
        ap (λ (x : PathBuffer P S). x.activation_in_progress) (some-inj (sym e ∙ f)) ∙ a in
      absurd cc
  Holds-warm path s l b (warm b' e a' h) f a =
      subst (λ x. IsBuffered d c path x s.db l) (some-inj (sym e ∙ f)) h

  -- A buffer that is flushed to its end is stored.
  pub IsBuffered-IsStored :
      (path : ActorPath) (b : PathBuffer P S) (db : Db) (l : Ledger P S)
      → b.flushed_entry_count ≡ length b.journal.entries
      → IsBuffered d c path b db l
      → IsStored d c path db l
  unfolding last_snapshot
  IsBuffered-IsStored path b db l e h =
      let whole = take-length b.flushed_entry_count b.journal.entries (omega (arith, e)) in
      record {
        rows = h.prefix.rows ∙ ap (map (row_of c)) (ap journaled_of whole ∙ h.events);
        text = h.prefix.text ∙ ap (text_of c) (ap last_snapshot_of whole ∙ h.latest);
      }

  pub CapturedAt-Fits :
      (s : Shared d c) (l : Ledger P S) (batch : PendingFlush)
      → Holds d c batch.path s l
      → CapturedAt s batch
      → Fits d c batch s.db
  CapturedAt-Fits s l batch h (b, e, a, captured) =
      let held = Holds-warm batch.path s l b h e a in
      let entries = b.journal.entries in
      let k = b.flushed_entry_count in
      let n = batch.captured_end in
      let split = take-split k n entries captured.from in
      let whole = take-append-drop n entries in
      record {
        js = journaled_of (take k entries);
        ks = journaled_of (drop k (take n entries));
        stored = held.prefix.rows;
        rows = captured.rows;
        counted =
            subst (Counted 0)
              (ap journaled_of (sym split)
                ∙ journaled_of-append (take k entries) (drop k (take n entries)))
              (Counted-split 0 (journaled_of (take n entries)) (journaled_of (drop n entries)) (
                subst (Counted 0)
                  (ap journaled_of (sym whole)
                    ∙ journaled_of-append (take n entries) (drop n entries))
                  (Dense-Counted 0 entries held.is_dense.dense))).0;
        newer = λ old new t u f g.
            let (st, x) =
              text_of-some c (last_snapshot_of (take k entries)) old t (sym held.prefix.text ∙ f) in
            let (st', y) =
              text_of-some c (last_snapshot_of (drop k (take n entries))) new u
                (sym captured.text ∙ g) in
            Anchored-newer 0 (take k entries) (drop k (take n entries)) old new st st'
              (subst (Anchored 0) (sym split) (
                Anchored-prefix 0 (take n entries) (drop n entries)
                  (subst (Anchored 0) (sym whole) held.anchored)))
              x y;
      }

  -- The batch of one buffer, if there is anything to flush.
  pub collect_buffer-cases :
      (path : ActorPath) (b : PathBuffer P S)
      → b.flushed_entry_count ≤ length b.journal.entries
      → ((collect_buffer d c path b ≡ []) × (b.flushed_entry_count ≡ length b.journal.entries))
        ⊎ ((batch : PendingFlush) × (collect_buffer d c path b ≡ batch ∷ [])
            × (batch.path ≡ path)
            × IsCaptured d c b batch
            × (batch.captured_end ≡ length b.journal.entries))
  unfolding collect_buffer
  collect_buffer-cases path b h =
      let entries = b.journal.entries in
      let start = b.flushed_entry_count in
      let end = length entries in
      let rows = collect_entries-rows d c (drop start (take end entries)) none in
      elim (Bool-cases (start == end)) [
        | inl e ↦ inl (rw (collect_buffer, e) refl, ground (arith, e))
        | inr e ↦ inr (
          record {
            path = path;
            events = (collect_entries d c (drop start (take end entries)) none).0;
            latest = (collect_entries d c (drop start (take end entries)) none).1;
            captured_end = end;
            drop_when_durable = b.drop_when_durable;
          },
          rw (collect_buffer, e) refl,
          refl,
          record {
            from = h;
            until = omega arith;
            rows = ap (λ (r : List EventRow × Option (SeqNo × String)). r.0) rows;
            text =
                ap (λ (r : List EventRow × Option (SeqNo × String)). r.1) rows
                ∙ or_older-none (text_of c (last_snapshot_of (drop start (take end entries))));
          },
          refl,
        )
      ]

  abbrev pub collected_at : ActorPath → Shared d c → List PendingFlush
  collected_at path s = elim (s.journals path) [
    | none ↦ []
    | some buffer ↦ collect_buffer d c path buffer
  ]

  pub collected_at-cases :
      (path : ActorPath) (s : Shared d c) (l : Ledger P S)
      → Holds d c path s l
      → ((collected_at path s ≡ []) × IsStored d c path s.db l)
        ⊎ ((batch : PendingFlush) × (collected_at path s ≡ batch ∷ [])
            × (batch.path ≡ path)
            × CapturedAt s batch)
  unfolding collect_buffer
  collected_at-cases path s l (cold e h) = inl (rw (collected_at, e) refl, h)
  collected_at-cases path s l (waking e h) = inl (rw (collected_at, e) refl, h)
  collected_at-cases path s l (warm b e a h) = elim (collect_buffer-cases path b h.flushed) [
    | inl (none_left, all) ↦
        inl (rw (collected_at, e) none_left, IsBuffered-IsStored path b s.db l all h)
    | inr (batch, is_it, at, captured, end) ↦
        inr (batch, rw (collected_at, e) is_it, at, (b, ap s.journals at ∙ e, a, captured))
  ]

  pub collect_pending-CapturedAt :
      (order : List ActorPath) (s : Shared d c) (ledgers : ActorPath → Ledger P S)
      → ((q : ActorPath) → Holds d c q s (ledgers q))
      → All (CapturedAt s) (collect_pending d c order s)
  unfolding collect_pending
  collect_pending-CapturedAt [] s ledgers h = tt
  collect_pending-CapturedAt (p ∷ order) s ledgers h =
      let rest = collect_pending-CapturedAt order s ledgers h in
      elim (collected_at-cases p s (ledgers p) (h p)) [
        | inl (e, stored) ↦
            subst (λ l. All (CapturedAt s) (l ++ collect_pending d c order s)) (sym e) rest
        | inr (batch, e, at, captured) ↦
            subst (λ l. All (CapturedAt s) (l ++ collect_pending d c order s)) (sym e)
              (captured, rest)
      ]

  pub paths_of-collect_pending :
      (order : List ActorPath) (s : Shared d c) (ledgers : ActorPath → Ledger P S) (q : ActorPath)
      → ((q : ActorPath) → Holds d c q s (ledgers q))
      → contains order q ≡ false
      → contains (paths_of (collect_pending d c order s)) q ≡ false
  unfolding collect_pending
  paths_of-collect_pending [] s ledgers q h n = refl
  paths_of-collect_pending (p ∷ order) s ledgers q h n =
      let rest = paths_of-collect_pending order s ledgers q h (ground (arith, n)) in
      elim (collected_at-cases p s (ledgers p) (h p)) [
        | inl (e, stored) ↦
            subst (λ l. contains (paths_of (l ++ collect_pending d c order s)) q ≡ false) (sym e)
              rest
        | inr (batch, e, at, captured) ↦
            subst (λ l. contains (paths_of (l ++ collect_pending d c order s)) q ≡ false) (sym e)
              (ground (arith, n, rest, at))
      ]

  pub collect_pending-NoDup :
      (order : List ActorPath) (s : Shared d c) (ledgers : ActorPath → Ledger P S)
      → ((q : ActorPath) → Holds d c q s (ledgers q))
      → NoDup order
      → NoDup (paths_of (collect_pending d c order s))
  unfolding collect_pending
  collect_pending-NoDup [] s ledgers h n = tt
  collect_pending-NoDup (p ∷ order) s ledgers h n =
      let rest = collect_pending-NoDup order s ledgers h n.1 in
      elim (collected_at-cases p s (ledgers p) (h p)) [
        | inl (e, stored) ↦
            subst (λ l. NoDup (paths_of (l ++ collect_pending d c order s))) (sym e) rest
        | inr (batch, e, at, captured) ↦
            subst (λ l. NoDup (paths_of (l ++ collect_pending d c order s))) (sym e)
              (
                subst (λ x. contains (paths_of (collect_pending d c order s)) x ≡ false) (sym at)
                    (paths_of-collect_pending order s ledgers p h n.0),
                rest,
              )
      ]
