-- ===== src/Journal/Store/Scan.antt =====
-- The order and the content of a `scan` of src/journal.rs.
use mathlib.Core.List.{Perm}
use mathlib.Core.List.Perm
use trouper.Prelude.{
  ℕ, ◌≤◌, ◌≡◌, refl, ap, ◌∙◌, inl, inr, Bool, false, List, [], ◌∷◌, arith, leb, leb→le, Bool-cases,
  ◌++◌, map, subst, retain, contains,
}
use trouper.Journal.{
  ActorPath, SchemaId, recorded, catch_up, JournalEntry, event, snapshot, Journal, ScannedEvent,
}
use trouper.Journal.Store.{
  InMemoryJournalStore, scan_entries, scan_all, insert_by_ingest, sort_by_ingest, scan,
}

-- Ascending by arrival, with nothing below `lo`.
abbrev pub Arrived : {P : Type 0} → ℕ → List (ScannedEvent P) → Type 0
Arrived lo [] = Unit {0}
Arrived lo (sc ∷ rest) = (lo ≤ sc.ingest_seq) × Arrived sc.ingest_seq rest

module _ {P : Type 0} where
  Arrived-lower :
      (lo lo' : ℕ) (xs : List (ScannedEvent P)) → lo' ≤ lo → Arrived lo xs → Arrived lo' xs
  Arrived-lower lo lo' [] b h = tt
  Arrived-lower lo lo' (x ∷ xs) b h = (omega arith, h.1)

  insert_by_ingest-Arrived :
      (lo : ℕ) (sc : ScannedEvent P) (xs : List (ScannedEvent P))
      → lo ≤ sc.ingest_seq
      → Arrived lo xs
      → Arrived lo (insert_by_ingest sc xs)
  insert_by_ingest-Arrived lo sc [] b h = (b, tt)
  insert_by_ingest-Arrived lo sc (x ∷ xs) b h = elim (Bool-cases (leb sc.ingest_seq x.ingest_seq)) [
    | inl e ↦ rw e (b, (leb→le _ _ e, h.1))
    | inr e ↦ rw e (h.0, insert_by_ingest-Arrived x.ingest_seq sc xs (ground arith) h.1)
  ]

  sort_by_ingest-Arrived : (xs : List (ScannedEvent P)) → Arrived 0 (sort_by_ingest xs)
  sort_by_ingest-Arrived [] = tt
  sort_by_ingest-Arrived (x ∷ xs) =
      insert_by_ingest-Arrived 0 x (sort_by_ingest xs) (omega arith) (sort_by_ingest-Arrived xs)

map-append : {A B : Type 0} (f : A → B) (xs ys : List A) → map f (xs ++ ys) ≡ map f xs ++ map f ys
map-append f [] ys = refl
map-append f (x ∷ xs) ys = ap (λ l. f x ∷ l) (map-append f xs ys)

module _ {P B : Type 0} where
  insert_by_ingest-map :
      (f : ScannedEvent P → B) (sc : ScannedEvent P) (xs : List (ScannedEvent P))
      → Perm (map f (insert_by_ingest sc xs)) (f sc ∷ map f xs)
  insert_by_ingest-map f sc [] = Perm.refl _
  insert_by_ingest-map f sc (x ∷ xs) = elim (Bool-cases (leb sc.ingest_seq x.ingest_seq)) [
    | inl e ↦ rw e (Perm.refl _)
    | inr e ↦ rw e (Perm.trans (Perm.cons _ (insert_by_ingest-map f sc xs)) (Perm.swap _ _ _))
  ]

  sort_by_ingest-map :
      (f : ScannedEvent P → B) (xs : List (ScannedEvent P))
      → Perm (map f (sort_by_ingest xs)) (map f xs)
  sort_by_ingest-map f [] = Perm.refl []
  sort_by_ingest-map f (x ∷ xs) =
      Perm.trans (insert_by_ingest-map f x (sort_by_ingest xs))
        (Perm.cons _ (sort_by_ingest-map f xs))

module _ {P S : Type 0} where
  -- What a scan asks for: a recorded event under one of the schemas.
  abbrev pub is_wanted : List SchemaId → JournalEntry P S → Bool
  is_wanted schemas (event seq ev recorded ingest) = contains schemas ev.schema
  is_wanted schemas (event seq ev (catch_up source source_seq) ingest) = false
  is_wanted schemas (snapshot seq state) = false

  -- The entries of the journals that a scan asks for, each with its journal's path.
  abbrev pub wanted_in :
      List SchemaId → List (ActorPath × Journal P S) → List (ActorPath × JournalEntry P S)
  wanted_in schemas [] = []
  wanted_in schemas ((path, j) ∷ rest) =
      map (λ e. (path, e)) (retain (is_wanted schemas) j.entries) ++ wanted_in schemas rest

  -- The entry that a scanned event was made of.
  abbrev pub origin_of : ScannedEvent P → ActorPath × JournalEntry P S
  origin_of sc = (sc.journal, event sc.seq sc.scanned recorded sc.ingest_seq)

  scan_entries-wanted :
      (schemas : List SchemaId) (path : ActorPath) (es : List (JournalEntry P S))
      → map origin_of (scan_entries schemas path es)
        ≡ map (λ e. (path, e)) (retain (is_wanted schemas) es)
  scan_entries-wanted schemas path [] = refl
  scan_entries-wanted schemas path (event seq ev recorded ingest ∷ rest) =
      elim (Bool-cases (contains schemas ev.schema)) [
        | inl e ↦ rw e (
            ap (λ l. (path, event seq ev recorded ingest) ∷ l)
              (scan_entries-wanted schemas path rest))
        | inr e ↦ rw e (scan_entries-wanted schemas path rest)
      ]
  scan_entries-wanted schemas path (event seq ev (catch_up source source_seq) ingest ∷ rest) =
      scan_entries-wanted schemas path rest
  scan_entries-wanted schemas path (snapshot seq state ∷ rest) =
      scan_entries-wanted schemas path rest

  scan_all-wanted :
      (schemas : List SchemaId) (js : List (ActorPath × Journal P S))
      → map origin_of (scan_all schemas js) ≡ wanted_in schemas js
  scan_all-wanted schemas [] = refl
  scan_all-wanted schemas ((path, j) ∷ rest) =
      map-append origin_of (scan_entries schemas path j.entries) (scan_all schemas rest)
      ∙ ap (λ l. l ++ map origin_of (scan_all schemas rest))
          (scan_entries-wanted schemas path j.entries)
      ∙ ap (λ l. map (λ e. (path, e)) (retain (is_wanted schemas) j.entries) ++ l)
          (scan_all-wanted schemas rest)

  -- A scan answers in the order of arrival over all journals, whatever order these are visited in. Its
  -- events, with their journals, sequences and arrival numbers, are those of the recorded entries under
  -- one of the schemas, each as often as the journals have it, and no copy of a catch-up.
  pub scan-Arrived :
      (schemas : List SchemaId) (store : InMemoryJournalStore P S)
      → let found = scan schemas store in
        Arrived 0 found × Perm (map origin_of found) (wanted_in schemas store.journals)
  unfolding scan
  scan-Arrived schemas store =
      let found = scan_all schemas store.journals in
      (
        sort_by_ingest-Arrived found,
        subst (λ l. Perm (map origin_of (sort_by_ingest found)) l)
            (scan_all-wanted schemas store.journals) (sort_by_ingest-map origin_of found),
      )
