-- ===== src/Journal/Store.antt =====
-- The in-memory store of src/journal.rs: one journal per actor path and one arrival counter over all of
-- them. The hash map is an association list; `scan` sorts what it finds, so its order is not seen.
pub mod Frame
pub mod Scan
pub mod CatchUp
mod Tests
use trouper.Prelude.{
  ℕ, not, Option, none, some, List, [], ◌∷◌, ◌++◌, str_eq, leb, if◌then◌else◌, retain, contains,
}
use trouper.Journal.{
  ActorPath, SchemaId, SeqNo, Event, recorded, catch_up, JournalEntry, event, snapshot, Journal,
  ScannedEvent, Replayed, empty_journal, append_snapshot, replay, append_events, append_catchup,
}

pub record InMemoryJournalStore (P S : Type 0) : Type 0 where
  pub journals : List (ActorPath × Journal P S)
  pub ingest : ℕ

-- `sort_by_key(|sc| sc.ingest_seq)`, which is stable.
abbrev pub insert_by_ingest :
    {P : Type 0} → ScannedEvent P → List (ScannedEvent P) → List (ScannedEvent P)
insert_by_ingest sc [] = sc ∷ []
insert_by_ingest sc (x ∷ xs) =
    let later = insert_by_ingest sc xs in
    if leb sc.ingest_seq x.ingest_seq then sc ∷ x ∷ xs else x ∷ later

abbrev pub sort_by_ingest : {P : Type 0} → List (ScannedEvent P) → List (ScannedEvent P)
sort_by_ingest [] = []
sort_by_ingest (sc ∷ rest) = insert_by_ingest sc (sort_by_ingest rest)

module _ {P S : Type 0} where
  abbrev pub empty_store : InMemoryJournalStore P S
  empty_store = record { journals = []; ingest = 0 }

  -- `HashMap::get`
  unfoldable pub get_journal : ActorPath → List (ActorPath × Journal P S) → Option (Journal P S)
  get_journal path [] = none
  get_journal path ((p, j) ∷ rest) = if str_eq p path then some j else get_journal path rest

  -- `entry(path).or_default()`
  unfoldable pub entry_or_default : ActorPath → List (ActorPath × Journal P S) → Journal P S
  unfolding get_journal
  entry_or_default path js = elim (get_journal path js) [ none ↦ empty_journal | some j ↦ j ]

  unfoldable pub set_journal :
      ActorPath → Journal P S → List (ActorPath × Journal P S) → List (ActorPath × Journal P S)
  set_journal path j [] = (path, j) ∷ []
  set_journal path j ((p, k) ∷ rest) =
      let later = set_journal path j rest in if str_eq p path then (p, j) ∷ rest else (p, k) ∷ later

  unfoldable pub remove_journal :
      ActorPath → List (ActorPath × Journal P S) → List (ActorPath × Journal P S)
  remove_journal path js = retain (λ entry. not (str_eq entry.0 path)) js

  unfoldable pub store_append :
      ActorPath → List (Event P) → InMemoryJournalStore P S → InMemoryJournalStore P S × List SeqNo
  unfolding entry_or_default set_journal
  store_append path events store =
      let (j, seqs, ingest) =
        append_events events store.ingest (entry_or_default path store.journals) in
      (record { journals = set_journal path j store.journals; ingest = ingest }, seqs)

  unfoldable pub store_append_catchup :
      ActorPath
      → List (ScannedEvent P)
      → InMemoryJournalStore P S
      → InMemoryJournalStore P S × List (Option SeqNo)
  unfolding entry_or_default set_journal
  store_append_catchup path events store =
      let (j, slots, ingest) =
        append_catchup events store.ingest (entry_or_default path store.journals) in
      (record { journals = set_journal path j store.journals; ingest = ingest }, slots)

  unfoldable pub store_append_snapshot :
      ActorPath → SeqNo → S → ℕ → InMemoryJournalStore P S → InMemoryJournalStore P S
  unfolding entry_or_default set_journal
  store_append_snapshot path seq state now store = record store {
    journals =
        set_journal path (append_snapshot seq state now (entry_or_default path store.journals))
          store.journals;
  }

  unfoldable pub load : ActorPath → InMemoryJournalStore P S → Option (Replayed P S)
  unfolding get_journal
  load path store = elim (get_journal path store.journals) [
    | none ↦ none
    | some j ↦ some (replay j)
  ]

  unfoldable pub purge : ActorPath → InMemoryJournalStore P S → InMemoryJournalStore P S
  unfolding remove_journal
  purge path store = record store { journals = remove_journal path store.journals }

  -- The recorded events of one journal under one of the schemas.
  abbrev pub scan_entries :
      List SchemaId → ActorPath → List (JournalEntry P S) → List (ScannedEvent P)
  scan_entries schemas path [] = []
  scan_entries schemas path (event seq ev recorded ingest ∷ rest) =
      let later = scan_entries schemas path rest in
      if contains schemas ev.schema
      then record { journal = path; seq = seq; ingest_seq = ingest; scanned = ev } ∷ later
      else later
  scan_entries schemas path (event seq ev (catch_up source source_seq) ingest ∷ rest) =
      scan_entries schemas path rest
  scan_entries schemas path (snapshot seq state ∷ rest) = scan_entries schemas path rest

  abbrev pub scan_all : List SchemaId → List (ActorPath × Journal P S) → List (ScannedEvent P)
  scan_all schemas [] = []
  scan_all schemas ((path, j) ∷ rest) = scan_entries schemas path j.entries ++ scan_all schemas rest

  unfoldable pub scan : List SchemaId → InMemoryJournalStore P S → List (ScannedEvent P)
  scan schemas store = sort_by_ingest (scan_all schemas store.journals)
