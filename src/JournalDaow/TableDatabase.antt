-- ===== src/JournalDaow/TableDatabase.antt =====
-- A database of rows in memory, with texts as payloads.
use trouper.Prelude.{
  ℕ, zero, suc, ◌≤◌, ◌<◌, max, String, ◌≡◌, refl, ap, ◌∙◌, Bool, false, Option, none, some, List,
  [], ◌∷◌, ◌++◌, arith, leb, ◌==◌, if◌then◌else◌, any, All, update, update_self, update_other,
}
use trouper.Journal.{ActorPath, SeqNo, EventOrigin, recorded, catch_up}
use trouper.JournalDaow.Rows.{Codec, EventRow}
use trouper.JournalDaow.Database.{Database}
use Prim.Native.Char.{code}

-- An origin as a text: the sequence in unary, then the path.
abbrev unary : ℕ → String → String
unary zero s = String.◌∷◌ "0" s
unary (suc n) s = String.◌∷◌ "1" (unary n s)

abbrev bumped : Option EventOrigin → Option EventOrigin
bumped none = none
bumped (some recorded) = none
bumped (some (catch_up s n)) = some (catch_up s (suc n))

abbrev origin_text : EventOrigin → String
origin_text recorded = String.[]
origin_text (catch_up s n) = unary n s

abbrev origin_from : String → Option EventOrigin
origin_from String.[] = some recorded
origin_from (String.◌∷◌ c s) = if code c == 49 then bumped (origin_from s) else some (catch_up s 0)

origin_from-unary : (n : ℕ) (s : String) → origin_from (unary n s) ≡ some (catch_up s n)
origin_from-unary zero s = refl
origin_from-unary (suc n) s = ap bumped (origin_from-unary n s)

pub origin_from-text : (o : EventOrigin) → origin_from (origin_text o) ≡ some o
origin_from-text recorded = refl
origin_from-text (catch_up s n) = origin_from-unary n s

abbrev pub texts : Codec String String
texts = record {
  payload_text = λ p. p;
  payload_from = λ t. some t;
  payload_from-text = λ p. refl;
  state_text = λ s. s;
  state_from = λ t. some t;
  state_from-text = λ s. refl;
  origin_text = origin_text;
  origin_from = origin_from;
  origin_from-text = origin_from-text;
}

abbrev has_seq : SeqNo → List EventRow → Bool
has_seq n rows = any (λ r. r.seq == n) rows

pub record Tables : Type 0 where
  pub rows : ActorPath → List EventRow
  pub snapshots : ActorPath → Option (SeqNo × String)
  pub highest : Option ℕ

abbrev later_of : Option (SeqNo × String) → SeqNo → String → Option (SeqNo × String)
later_of none seq text = some (seq, text)
later_of (some (old, t)) seq text = if leb old seq then some (seq, text) else some (old, t)

abbrev highest_of : Option ℕ → ℕ → Option ℕ
highest_of none n = some n
highest_of (some m) n = some (max m n)

abbrev insert_row : ActorPath → EventRow → Tables → Option Tables
insert_row path row t =
    if has_seq row.seq (t.rows path)
    then none
    else some (record t {
      rows = update path (t.rows path ++ row ∷ []) t.rows;
      highest = highest_of t.highest row.ingest_seq;
    })

pub has_seq-below :
    (n : ℕ) (rows : List EventRow) → All (λ (r : EventRow). r.seq < n) rows → has_seq n rows ≡ false
has_seq-below n [] h = refl
has_seq-below n (r ∷ rows) h = ground (arith, h.0, has_seq-below n rows h.1)

pub later_of-newer :
    (o : Option (SeqNo × String)) (seq : SeqNo) (text : String)
    → ((old : SeqNo) (t : String) → o ≡ some (old, t) → old ≤ seq)
    → later_of o seq text ≡ some (seq, text)
later_of-newer none seq text h = refl
later_of-newer (some (old, t)) seq text h = ground (arith, h old t refl)

abbrev pub table_database : Database
table_database = record {
  Db = Tables;
  events_at = λ path t. t.rows path;
  snapshot_at = λ path t. t.snapshots path;
  insert_event = insert_row;
  replace_snapshot = λ path seq text t. record t {
    snapshots = update path (later_of (t.snapshots path) seq text) t.snapshots;
  };
  delete_journal =
      λ path t. record t { rows = update path [] t.rows; snapshots = update path none t.snapshots };
  max_ingest = λ t. t.highest;
  insert_event-accepts = λ path row t h. (
    record t {
      rows = update path (t.rows path ++ row ∷ []) t.rows;
      highest = highest_of t.highest row.ingest_seq;
    },
    rw (has_seq-below row.seq (t.rows path) h) refl,
    update_self path (t.rows path ++ row ∷ []) t.rows,
    refl,
    λ q n. (update_other path q (t.rows path ++ row ∷ []) t.rows n, refl),
  );
  insert_event-refuses = λ path row t h. rw h refl;
  replace_snapshot-latest = λ path seq text t h. (
    update_self path (later_of (t.snapshots path) seq text) t.snapshots
        ∙ later_of-newer (t.snapshots path) seq text h,
    refl,
    λ q n. (refl, update_other path q (later_of (t.snapshots path) seq text) t.snapshots n),
  );
  delete_journal-forgets = λ path t. (
    update_self path [] t.rows,
    update_self path none t.snapshots,
    λ q n. (update_other path q [] t.rows n, update_other path q none t.snapshots n),
  );
}
