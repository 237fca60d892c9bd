-- ===== src/JournalDaow/Loads.antt =====
-- Loads and purges of src/journal_daow.rs over the ledgers.
use trouper.Prelude.{
  ◌<◌, ◌≡◌, refl, sym, ap, subst, ◌∙◌, ◌≢◌, ◌⊎◌, inl, inr, Bool, true, false, Option, none, some,
  List, [], ◌∷◌, ◌++◌, map, arith, str_eq, eq_iff, if◌then◌else◌, Bool-cases, u64_max, length,
  update, update_self, update_other, take-length,
}
use trouper.Journal.{
  ActorPath, SeqNo, JournaledEvent, Journal, journaled_of, last_snapshot, last_snapshot_of,
}
use trouper.JournalDaow.Rows.{Codec, row_of, text_of, rebuild_journal}
use trouper.JournalDaow.Rows.RoundTrip.{
  entry_of, snapshot_entry, Counted, rebuilt, rebuild_journal-rows,
}
use trouper.JournalDaow.Database.{Database}
use trouper.JournalDaow.Buffers.{
  PathBuffer, Shared, set_buffer, activating, durable, Loaded, unreadable, answered, build_replay,
  replay_of,
}
use trouper.JournalDaow.Cold.{is_nothing, seed_buffer, answer_at, load_seeded, load, purge}
use trouper.JournalDaow.Ledger.{
  Ledger, IsLedger, answer, Anchored, IsStored, IsBuffered, Holds, cold, waking, warm,
}
use trouper.JournalDaow.Refine.{IsBuffered-Same, Holds-Same}
use trouper.JournalDaow.Replace.{kept-Holds}

module _ (d : Database) {P S : Type 0} (c : Codec P S) where
  open d use {Db, events_at, snapshot_at, delete_journal-forgets}

  stored_again :
      (path : ActorPath) (s : Shared d c) (js : List (JournaledEvent P))
      (latest : Option (SeqNo × S))
      → events_at path s.db ≡ map (row_of c) js
      → snapshot_at path s.db ≡ text_of c latest
      → Counted 0 js
      → length js < u64_max
      → rebuild_journal c (events_at path s.db) (snapshot_at path s.db) ≡ some (rebuilt c js latest)
  stored_again path s js latest e t h f =
      ap (λ x. rebuild_journal c x (snapshot_at path s.db)) e
      ∙ ap (rebuild_journal c (map (row_of c) js)) t
      ∙ (rebuild_journal-rows c js latest h f).0

  -- The seed of a stored path.
  seed_buffer-stored :
      (path : ActorPath) (s : Shared d c) (js : List (JournaledEvent P))
      (latest : Option (SeqNo × S))
      → events_at path s.db ≡ map (row_of c) js
      → snapshot_at path s.db ≡ text_of c latest
      → Counted 0 js
      → length js < u64_max
      → ((seed_buffer d c path false s ≡ (set_buffer d c path none s, some false))
          × (replay_of js latest ≡ none))
        ⊎ (seed_buffer d c path false s
            ≡ (set_buffer d c path (some (durable (rebuilt c js latest))) s, some true))
  unfolding seed_buffer
  seed_buffer-stored path s [] none e t h f = inl (rw (seed_buffer, e, t) refl, refl)
  seed_buffer-stored path s [] (some latest) e t h f =
      let nothing : is_nothing (events_at path s.db) (snapshot_at path s.db) ≡ false =
        ap (λ x. is_nothing x (snapshot_at path s.db)) e ∙ ap (is_nothing []) t in
      inr (rw (seed_buffer, nothing, stored_again path s [] (some latest) e t h f) refl)
  seed_buffer-stored path s (j ∷ js) latest e t h f =
      let nothing : is_nothing (events_at path s.db) (snapshot_at path s.db) ≡ false =
        ap (λ x. is_nothing x (snapshot_at path s.db)) e in
      inr (rw (seed_buffer, nothing, stored_again path s (j ∷ js) latest e t h f) refl)

  Anchored-rebuilt :
      (js : List (JournaledEvent P)) (latest : Option (SeqNo × S))
      → Anchored 0 (map entry_of js ++ snapshot_entry latest)
  Anchored-rebuilt [] none = tt
  Anchored-rebuilt [] (some (seq, st)) = (omega arith, tt)
  Anchored-rebuilt (j ∷ js) latest = Anchored-rebuilt js latest

  -- The buffer that a seed builds is in step with the database.
  rebuilt-IsBuffered :
      (path : ActorPath) (db : Db) (l : Ledger P S)
      → IsLedger l
      → IsStored d c path db l
      → IsBuffered d c path (durable (rebuilt c l.events l.latest)) db l
  unfolding last_snapshot
  rebuilt-IsBuffered path db l i h =
      let j = rebuilt c l.events l.latest in
      let r = rebuild_journal-rows c l.events l.latest i.counted i.fits in
      let whole = take-length (length j.entries) j.entries (omega arith) in
      record {
        events = r.1;
        latest = r.2;
        is_dense = r.3;
        anchored = Anchored-rebuilt l.events l.latest;
        flushed = omega arith;
        prefix = record {
          rows = h.rows ∙ ap (map (row_of c)) (sym (ap journaled_of whole ∙ r.1));
          text = h.text ∙ ap (text_of c) (sym (ap last_snapshot_of whole ∙ r.2));
        };
      }

  abbrev Seeded :
      ActorPath → Bool → Shared d c → (ActorPath → Ledger P S) → Shared d c × Loaded P S → Type 0
  Seeded path fails s ledgers r =
      ((q : ActorPath) → Holds d c q r.0 (ledgers q))
      × ((r.1 ≡ answered (answer (ledgers path))) ⊎ ((r.1 ≡ unreadable) × (fails ≡ true)))

  build_replay-answer :
      (j : Journal P S) (l : Ledger P S)
      → journaled_of j.entries ≡ l.events
      → last_snapshot j ≡ l.latest
      → build_replay j ≡ answer l
  unfolding build_replay
  build_replay-answer j l e t =
      ap (λ x. replay_of x (last_snapshot j)) e ∙ ap (replay_of l.events) t

  load_seeded-Holds :
      (path : ActorPath) (fails : Bool) (s : Shared d c) (ledgers : ActorPath → Ledger P S)
      → IsLedger (ledgers path)
      → IsStored d c path s.db (ledgers path)
      → ((q : ActorPath) → Holds d c q s (ledgers q))
      → Seeded path fails s ledgers (load_seeded d c path (seed_buffer d c path fails s))
  unfolding seed_buffer build_replay
  load_seeded-Holds path true s ledgers i stored h = (
    kept-Holds d c path (some activating) s ledgers
        (waking (update_self path (some activating) s.journals) stored) h,
    inr (refl, refl),
  )
  load_seeded-Holds path false s ledgers i stored h =
      let l = ledgers path in
      elim (seed_buffer-stored path s l.events l.latest stored.rows stored.text i.counted i.fits) [
        | inl (e, none_there) ↦
            subst (λ r. Seeded path false s ledgers (load_seeded d c path r)) (sym e)
              (
                kept-Holds d c path none s ledgers (cold (update_self path none s.journals) stored)
                    h,
                inl (
                    ap answer_at (update_self path none s.journals) ∙ ap answered (sym none_there)),
              )
        | inr e ↦
            let b = durable (rebuilt c l.events l.latest) in
            let i' = rebuilt-IsBuffered path s.db l i stored in
            subst (λ r. Seeded path false s ledgers (load_seeded d c path r)) (sym e)
              (
                kept-Holds d c path (some b) s ledgers
                    (warm b (update_self path (some b) s.journals) refl i') h,
                inl (
                    ap answer_at (update_self path (some b) s.journals)
                    ∙ ap answered (build_replay-answer b.journal l i'.events i'.latest)),
              )
      ]

  loaded :
      (path : ActorPath) (fails : Bool) (s : Shared d c) (ledgers : ActorPath → Ledger P S)
      → IsLedger (ledgers path)
      → ((q : ActorPath) → Holds d c q s (ledgers q))
      → Holds d c path s (ledgers path)
      → Seeded path fails s ledgers (load d c path fails s)
  unfolding load
  loaded path fails s ledgers i h (cold e stored) =
      rw (load, e) (load_seeded-Holds path fails s ledgers i stored h)
  loaded path fails s ledgers i h (waking e stored) =
      rw (load, e) (load_seeded-Holds path fails s ledgers i stored h)
  loaded path fails s ledgers i h (warm b e a held) =
      let b' : PathBuffer P S = record b { drop_when_durable = false } in
      let eq : load d c path fails s
          ≡ (set_buffer d c path (some b') s, answered (build_replay b.journal)) =
        rw (load, e, a) refl in
      subst (Seeded path fails s ledgers) (sym eq) (
        kept-Holds d c path (some b') s ledgers
            (warm b' (update_self path (some b') s.journals) a
              (IsBuffered-Same d c path b b' s.db (ledgers path) refl refl held))
            h,
        inl (ap answered (build_replay-answer b.journal (ledgers path) held.events held.latest)),
      )

  -- A load answers with the path's ledger, from its buffer or from the database, unless the database
  -- fails, and it changes no ledger.
  pub load-Holds :
      (path : ActorPath) (fails : Bool) (s : Shared d c) (ledgers : ActorPath → Ledger P S)
      → IsLedger (ledgers path)
      → ((q : ActorPath) → Holds d c q s (ledgers q))
      → let r = load d c path fails s in
        ((q : ActorPath) → Holds d c q r.0 (ledgers q))
        × ((r.1 ≡ answered (answer (ledgers path))) ⊎ ((r.1 ≡ unreadable) × (fails ≡ true)))
  unfolding load
  load-Holds path fails s ledgers i h = loaded path fails s ledgers i h (h path)

  -- A purge forgets the path's ledger and no other, if the database does not fail.
  pub purge-Holds :
      (path : ActorPath) (fails : Bool) (s : Shared d c) (ledgers : ActorPath → Ledger P S)
      → ((q : ActorPath) → Holds d c q s (ledgers q))
      → let r = purge d c path fails s in
        let gone : Ledger P S = record { events = []; latest = none } in
        let ledgers' = if fails then ledgers else update path gone ledgers in
        ((q : ActorPath) → Holds d c q r.0 (ledgers' q)) × (r.0.ingest_seq ≡ s.ingest_seq)
  unfolding purge
  purge-Holds path true s ledgers h = (h, refl)
  purge-Holds path false s ledgers h = (
    λ q.
        let gone : Ledger P S = record { events = []; latest = none } in
        let s' = (purge d c path false s).0 in
        let (rows, text, others) = delete_journal-forgets path s.db in
        elim (Bool-cases (str_eq q path)) [
          | inl e ↦
              subst (λ x. Holds d c x s' (update path gone ledgers x)) (sym ((eq_iff q path).0 e))
                (subst (Holds d c path s') (sym (update_self path gone ledgers))
                  (cold (update_self path none s.journals) (record { rows = rows; text = text })))
          | inr e ↦
              let n : q ≢ path = λ same. ground (arith, e, same, eq_iff q path) in
              subst (Holds d c q s') (sym (update_other path q gone ledgers n)) (
                Holds-Same d c q s s' (ledgers q) (update_other path q none s.journals n)
                  (others q n) (h q))
        ],
    refl,
  )
