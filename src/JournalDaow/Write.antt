-- ===== src/JournalDaow/Write.antt =====
-- What a flush of src/journal_daow.rs writes: every path's rows behind the stored ones, and nobody else's.
use trouper.Prelude.{
  ℕ, suc, ◌+◌, ◌≤◌, ◌<◌, String, ◌≡◌, refl, sym, ap, subst, ◌∙◌, ◌≢◌, inl, inr, false, Option, none,
  some, List, [], ◌∷◌, ◌++◌, map, append_assoc, append-nil, arith, str_eq, eq_iff, if◌then◌else◌,
  Bool-cases, length, All, contains, NoDup,
}
use trouper.Journal.{ActorPath, SeqNo, JournaledEvent}
use trouper.JournalDaow.Rows.{Codec, EventRow, row_of}
use trouper.JournalDaow.Rows.RoundTrip.{Counted}
use trouper.JournalDaow.Database.{Database}
use trouper.JournalDaow.Flush.{PendingFlush, write_events, write_snapshot, write_pending_statements}
use trouper.JournalDaow.Entries.{Counted-split, or_older}

abbrev pub paths_of : List PendingFlush → List ActorPath
paths_of pending = map (λ b. b.path) pending

abbrev pub batch_for : ActorPath → List PendingFlush → Option PendingFlush
batch_for q [] = none
batch_for q (batch ∷ pending) = if str_eq batch.path q then some batch else batch_for q pending

pub batch_for-absent :
    (q : ActorPath) (pending : List PendingFlush)
    → contains (paths_of pending) q ≡ false
    → batch_for q pending ≡ none
batch_for-absent q [] h = refl
batch_for-absent q (batch ∷ pending) h = ground (arith, h, batch_for-absent q pending)

module _ (d : Database) {P S : Type 0} (c : Codec P S) where
  open d use {Db, events_at, snapshot_at, insert_event-accepts, replace_snapshot-latest}

  pub map_rows-append :
      (js ks : List (JournaledEvent P))
      → map (row_of c) (js ++ ks) ≡ map (row_of c) js ++ map (row_of c) ks
  map_rows-append [] ks = refl
  map_rows-append (j ∷ js) ks = ap (λ l. row_of c j ∷ l) (map_rows-append js ks)

  -- A path's rows and snapshot are as they were.
  abbrev pub Same : ActorPath → Db → Db → Type 0
  Same q db db' = (events_at q db' ≡ events_at q db) × (snapshot_at q db' ≡ snapshot_at q db)

  -- The batch continues what is stored at its path.
  pub record Fits (batch : PendingFlush) (db : Db) : Type 0 where
    pub js : List (JournaledEvent P)
    pub ks : List (JournaledEvent P)
    pub stored : events_at batch.path db ≡ map (row_of c) js
    pub rows : batch.events ≡ map (row_of c) ks
    pub counted : Counted 0 (js ++ ks)
    pub newer :
        (old new : SeqNo) (t u : String)
        → snapshot_at batch.path db ≡ some (old, t)
        → batch.latest ≡ some (new, u)
        → old ≤ new

  below :
      (k n : ℕ) (js : List (JournaledEvent P))
      → Counted k js
      → k + length js ≤ n
      → All (λ (r : EventRow). r.seq < n) (map (row_of c) js)
  below k n [] h b = tt
  below k n (j ∷ js) h b = (omega (arith, h.0, b), below (suc k) n js h.1 (omega (arith, b)))

  write_events-fresh :
      (path : ActorPath) (js ks : List (JournaledEvent P)) (db : Db)
      → events_at path db ≡ map (row_of c) js
      → Counted 0 (js ++ ks)
      → (db' : Db) × (write_events d c path (map (row_of c) ks) db ≡ some db')
        × (events_at path db' ≡ map (row_of c) (js ++ ks))
        × (snapshot_at path db' ≡ snapshot_at path db)
        × ((q : ActorPath) → q ≢ path → Same q db db')
  unfolding write_events
  write_events-fresh path js [] db e h =
      (db, refl, e ∙ ap (map (row_of c)) (sym (append-nil js)), refl, λ q n. (refl, refl))
  write_events-fresh path js (k ∷ ks) db e h =
      let s = Counted-split 0 js (k ∷ ks) h in
      let low =
        subst (All (λ (r : EventRow). r.seq < k.seq)) (sym e)
          (below 0 k.seq js s.0 (omega (arith, s.1.0))) in
      let (db1, inserted, rows, same, others) = insert_event-accepts path (row_of c k) db low in
      let shift = append_assoc js (k ∷ []) ks in
      let (db', written, rows', same', others') =
        write_events-fresh path (js ++ k ∷ []) ks db1
          (rows ∙ ap (λ l. l ++ row_of c k ∷ []) e ∙ sym (map_rows-append js (k ∷ [])))
          (subst (Counted 0) (sym shift) h) in
      (
        db',
        rw (write_events, inserted) written,
        rows' ∙ ap (map (row_of c)) shift,
        same' ∙ same,
        λ q n. ((others' q n).0 ∙ (others q n).0, (others' q n).1 ∙ (others q n).1),
      )

  write_snapshot-newer :
      (path : ActorPath) (latest : Option (SeqNo × String)) (db : Db)
      → ((old new : SeqNo) (t u : String)
          → snapshot_at path db ≡ some (old, t)
          → latest ≡ some (new, u)
          → old ≤ new)
      → (snapshot_at path (write_snapshot d c path latest db)
          ≡ or_older latest (snapshot_at path db))
        × (events_at path (write_snapshot d c path latest db) ≡ events_at path db)
        × ((q : ActorPath) → q ≢ path → Same q db (write_snapshot d c path latest db))
  write_snapshot-newer path none db h = (refl, refl, λ q n. (refl, refl))
  write_snapshot-newer path (some (seq, text)) db h =
      replace_snapshot-latest path seq text db (λ old t e. h old seq t text e refl)

  -- What a transaction did for one path.
  abbrev pub Written : ActorPath → Option PendingFlush → Db → Db → Type 0
  Written q none db db' = Same q db db'
  Written q (some batch) db db' =
      (events_at q db' ≡ events_at q db ++ batch.events)
      × (snapshot_at q db' ≡ or_older batch.latest (snapshot_at q db))

  Written-Same :
      (q : ActorPath) (o : Option PendingFlush) (db db1 db' : Db)
      → Same q db db1
      → Written q o db1 db'
      → Written q o db db'
  Written-Same q none db db1 db' s w = (w.0 ∙ s.0, w.1 ∙ s.1)
  Written-Same q (some batch) db db1 db' s w =
      (w.0 ∙ ap (λ l. l ++ batch.events) s.0, w.1 ∙ ap (or_older batch.latest) s.1)

  Fits-Same :
      (batch : PendingFlush) (db db' : Db) → Same batch.path db db' → Fits batch db → Fits batch db'
  Fits-Same batch db db' s f = record {
    js = f.js;
    ks = f.ks;
    stored = s.0 ∙ f.stored;
    rows = f.rows;
    counted = f.counted;
    newer = λ old new t u e g. f.newer old new t u (sym s.1 ∙ e) g;
  }

  Fits-others :
      (p : ActorPath) (db db' : Db) (pending : List PendingFlush)
      → ((q : ActorPath) → q ≢ p → Same q db db')
      → contains (paths_of pending) p ≡ false
      → All (λ b. Fits b db) pending
      → All (λ b. Fits b db') pending
  Fits-others p db db' [] s n h = tt
  Fits-others p db db' (batch ∷ pending) s n h = (
    Fits-Same batch db db' (s batch.path (λ e. ground (arith, n, eq_iff batch.path p, e))) h.0,
    Fits-others p db db' pending s (ground (arith, n)) h.1,
  )

  write_batch :
      (batch : PendingFlush) (db : Db)
      → Fits batch db
      → (db' : Db) × (write_events d c batch.path batch.events db ≡ some db')
        × (let db2 = write_snapshot d c batch.path batch.latest db' in
            Written batch.path (some batch) db db2
            × ((q : ActorPath) → q ≢ batch.path → Same q db db2))
  write_batch batch db f =
      let (db', written, rows, same, others) =
        write_events-fresh batch.path f.js f.ks db f.stored f.counted in
      let (text, kept, others') =
        write_snapshot-newer batch.path batch.latest db'
          (λ old new t u e. f.newer old new t u (sym same ∙ e)) in
      (
        db',
        ap (λ rs. write_events d c batch.path rs db) f.rows ∙ written,
        (
          (
            kept
                ∙ rows
                ∙ map_rows-append f.js f.ks
                ∙ ap (λ l. l ++ map (row_of c) f.ks) (sym f.stored)
                ∙ ap (λ l. events_at batch.path db ++ l) (sym f.rows),
            text ∙ ap (or_older batch.latest) same,
          ),
          λ q n. ((others' q n).0 ∙ (others q n).0, (others' q n).1 ∙ (others q n).1),
        ),
      )

  -- A transaction of batches that continue what is stored, one per path, goes through. It puts each
  -- batch's rows behind its path's, replaces the snapshot if the batch has one, and touches no
  -- other path.
  pub write_pending_statements-Written :
      (pending : List PendingFlush) (db : Db)
      → NoDup (paths_of pending)
      → All (λ b. Fits b db) pending
      → (db' : Db) × (write_pending_statements d c pending db ≡ some db')
        × ((q : ActorPath) → Written q (batch_for q pending) db db')
  unfolding write_pending_statements
  write_pending_statements-Written [] db n h = (db, refl, λ q. (refl, refl))
  write_pending_statements-Written (batch ∷ pending) db n h =
      let (db1, written, here_others) = write_batch batch db h.0 in
      let (here, others) = here_others in
      let db2 = write_snapshot d c batch.path batch.latest db1 in
      let (db', done, rest) =
        write_pending_statements-Written pending db2 n.1
          (Fits-others batch.path db db2 pending others n.0 h.1) in
      (
        db',
        rw (write_pending_statements, written) done,
        λ q. elim (Bool-cases (str_eq batch.path q)) [
          | inl e ↦
              let later : Same batch.path db2 db' =
                subst (λ o. Written batch.path o db2 db') (batch_for-absent batch.path pending n.0)
                  (rest batch.path) in
              rw e (
                subst (λ x. Written x (some batch) db db') ((eq_iff batch.path q).0 e)
                  (later.0 ∙ here.0, later.1 ∙ here.1))
          | inr e ↦ rw e (
              Written-Same q (batch_for q pending) db db2 db'
                (others q (λ same. ground (arith, e, same, eq_iff batch.path q))) (rest q))
        ],
      )
