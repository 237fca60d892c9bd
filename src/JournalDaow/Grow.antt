-- ===== src/JournalDaow/Grow.antt =====
-- A buffer of src/journal_daow.rs whose journal grows, and the abstract appends.
use trouper.Prelude.{
  ℕ, ◌+◌, ◌<◌, ◌≡◌, refl, sym, ap, subst, ◌∙◌, ◌⊎◌, inl, inr, false, none, some, List, [], ◌∷◌,
  ◌++◌, map, append_assoc, append-nil, arith, u64_max, add_u64, length, take, drop, length-append,
  take-append, some≢none,
}
use trouper.Journal.{
  ActorPath, SeqNo, Event, recorded, JournalEntry, event, snapshot, JournaledEvent, Journal,
  append_event, append_event_with_origin, append_events, next_seq, journaled_of, last_snapshot_of,
  last_snapshot,
}
use trouper.Journal.Seqs.{IsDense}
use trouper.JournalDaow.Rows.{Codec, row_of, text_of}
use trouper.JournalDaow.Database.{Database}
use trouper.JournalDaow.Buffers.{PathBuffer, Shared, new_buffer, mutable_buffer}
use trouper.JournalDaow.Flush.{PendingFlush}
use trouper.JournalDaow.Ledger.{
  Ledger, Anchored, IsStored, IsBuffered, Holds, cold, waking, warm, IsCaptured,
}
use trouper.JournalDaow.Capture.{Holds-warm}

module _ {P : Type 0} where
  -- The events as the journal presents them: sequences from `k`, arrival numbers from `ingest`.
  abbrev pub presented : ℕ → ℕ → List (Event P) → List (JournaledEvent P)
  presented k ingest [] = []
  presented k ingest (ev ∷ evs) =
      record { seq = k; journaled = ev; origin = recorded; ingest_seq = ingest }
      ∷ presented (k + 1) (add_u64 ingest 1) evs

module _ {P S : Type 0} where
  -- The abstract operations.
  abbrev pub with_events : ℕ → List (Event P) → Ledger P S → Ledger P S
  with_events ingest evs l = record l {
    events = l.events ++ presented (length l.events) ingest evs;
  }

  abbrev pub with_snapshot : SeqNo → S → Ledger P S → Ledger P S
  with_snapshot seq state l = record l { latest = some (seq, state) }

  -- An append puts entries behind the journal's.
  abbrev pub Grows : List (Event P) → ℕ → Journal P S → Type 0
  Grows evs ingest j =
      (more : List (JournalEntry P S)) × ((append_events evs ingest j).0.entries
        ≡ j.entries ++ more)
      × (journaled_of more ≡ presented j.event_count ingest evs)
      × (last_snapshot_of more ≡ none)
      × ((lo : ℕ) (xs : List (JournalEntry P S)) → Anchored lo xs → Anchored lo (xs ++ more))

  Anchored-event :
      (lo : ℕ) (xs more : List (JournalEntry P S)) (e : JournalEntry P S)
      → ((lo : ℕ) → Anchored lo (e ∷ []))
      → Anchored lo xs
      → Anchored lo (xs ++ e ∷ [])
  Anchored-event lo [] more e h a = h lo
  Anchored-event lo (event seq ev o i ∷ xs) more e h a = Anchored-event lo xs more e h a
  Anchored-event lo (snapshot seq st ∷ xs) more e h a = (a.0, Anchored-event seq xs more e h a.1)

  pub append_events-Grows :
      (evs : List (Event P)) (ingest : ℕ) (j : Journal P S)
      → j.event_count + length evs < u64_max
      → Grows evs ingest j
  unfolding append_events append_event append_event_with_origin next_seq
  append_events-Grows [] ingest j f = (
    [],
    sym (append-nil j.entries),
    refl,
    refl,
    λ lo xs a. subst (Anchored lo) (sym (append-nil xs)) a,
  )
  append_events-Grows (ev ∷ evs) ingest j f =
      let bump : add_u64 j.event_count 1 ≡ j.event_count + 1 = omega (arith, f) in
      let here : JournalEntry P S = event j.event_count ev recorded ingest in
      let (more, at, shown, last, anchored) =
        append_events-Grows evs (add_u64 ingest 1) (append_event ev ingest j).0
          (omega (arith, f)) in
      (
        here ∷ more,
        at ∙ append_assoc j.entries (here ∷ []) more,
        ap
            (λ l.
              record { seq = j.event_count; journaled = ev; origin = recorded; ingest_seq = ingest }
              ∷ l)
            (shown ∙ ap (λ n. presented n (add_u64 ingest 1) evs) bump),
        last,
        λ lo xs a.
            subst (Anchored lo) (append_assoc xs (here ∷ []) more)
              (anchored lo (xs ++ here ∷ []) (Anchored-event lo xs [] here (λ lo. tt) a)),
      )

module _ (d : Database) {P S : Type 0} (c : Codec P S) where
  open d use {Db}

  -- The path can be appended to: its buffer is live, or nothing of it exists yet.
  pub data IsReady (path : ActorPath) (s : Shared d c) (l : Ledger P S) : Type 0 where
    live :
        (b : PathBuffer P S)
        → s.journals path ≡ some b
        → b.activation_in_progress ≡ false
        → IsReady path s l
    unborn : s.journals path ≡ none → l ≡ record { events = []; latest = none } → IsReady path s l

  Holds-cold :
      (path : ActorPath) (s : Shared d c) (l : Ledger P S)
      → Holds d c path s l
      → s.journals path ≡ none
      → IsStored d c path s.db l
  Holds-cold path s l (cold e h) f = h
  Holds-cold path s l (waking e h) f = h
  Holds-cold path s l (warm b e a h) f = absurd (some≢none (sym e ∙ f))

  -- The buffer that an append works on, and what it is in step with.
  pub ready_buffer :
      (path : ActorPath) (s : Shared d c) (l : Ledger P S)
      → Holds d c path s l
      → IsReady path s l
      → (b : PathBuffer P S) × (mutable_buffer d c path s ≡ some b)
        × (b.activation_in_progress ≡ false)
        × IsBuffered d c path b s.db l
        × ((s.journals path ≡ some b) ⊎ (s.journals path ≡ none))
  unfolding mutable_buffer last_snapshot
  ready_buffer path s l h (live b e a) =
      (b, rw (mutable_buffer, e, a) refl, a, Holds-warm d c path s l b h e a, inl e)
  ready_buffer path s l h (unborn e fresh) =
      let stored = Holds-cold path s l h e in
      (
        new_buffer,
        rw (mutable_buffer, e) refl,
        refl,
        record {
          events = sym (ap (λ (l : Ledger P S). l.events) fresh);
          latest = sym (ap (λ (l : Ledger P S). l.latest) fresh);
          is_dense = record { dense = tt; counted = refl; fits = omega arith };
          anchored = tt;
          flushed = omega arith;
          prefix = record {
            rows = stored.rows ∙ ap (λ (l : Ledger P S). map (row_of c) l.events) fresh;
            text = stored.text ∙ ap (λ (l : Ledger P S). text_of c l.latest) fresh;
          };
        },
        inr e,
      )

  -- A buffer whose journal has grown.
  pub grown-IsBuffered :
      (path : ActorPath) (b : PathBuffer P S) (j : Journal P S) (db : Db) (l l' : Ledger P S)
      (more : List (JournalEntry P S))
      → j.entries ≡ b.journal.entries ++ more
      → journaled_of j.entries ≡ l'.events
      → last_snapshot j ≡ l'.latest
      → IsDense j
      → Anchored 0 j.entries
      → IsBuffered d c path b db l
      → IsBuffered d c path (record b { journal = j }) db l'
  grown-IsBuffered path b j db l l' more e events latest dense anchored h =
      let same =
        ap (take b.flushed_entry_count) e
        ∙ take-append b.flushed_entry_count b.journal.entries more h.flushed in
      record {
        events = events;
        latest = latest;
        is_dense = dense;
        anchored = anchored;
        flushed = omega (arith, h.flushed, ap length e, length-append b.journal.entries more);
        prefix = record {
          rows = h.prefix.rows ∙ ap (λ xs. map (row_of c) (journaled_of xs)) (sym same);
          text = h.prefix.text ∙ ap (λ xs. text_of c (last_snapshot_of xs)) (sym same);
        };
      }

  -- A captured batch is not touched by it.
  pub grown-IsCaptured :
      (b : PathBuffer P S) (j : Journal P S) (batch : PendingFlush) (more : List (JournalEntry P S))
      → j.entries ≡ b.journal.entries ++ more
      → IsCaptured d c b batch
      → IsCaptured d c (record b { journal = j }) batch
  grown-IsCaptured b j batch more e h =
      let same =
        ap (take batch.captured_end) e
        ∙ take-append batch.captured_end b.journal.entries more h.until in
      record {
        from = h.from;
        until = omega (arith, h.until, ap length e, length-append b.journal.entries more);
        rows =
            h.rows
            ∙ ap (λ xs. map (row_of c) (journaled_of (drop b.flushed_entry_count xs))) (sym same);
        text =
            h.text
            ∙ ap (λ xs. text_of c (last_snapshot_of (drop b.flushed_entry_count xs))) (sym same);
      }
