-- ===== src/JournalDaow/Tests.antt =====
-- Runs of the journal store over a table of rows: two orders are flushed while a third comes in.
use trouper.Prelude.{
  if◌then◌else◌, String, ◌≡◌, refl, sym, inl, inr, Bool, true, false, none, some, List, [], ◌∷◌,
  ◌++◌, arith, str_eq, eq_iff, Bool-cases, contains, update, some≢none,
}
use trouper.Journal.{ActorPath, Event, recorded, event, Journal}
use trouper.JournalDaow.Buffers.{PathBuffer, Shared, build, buffer_append}
use trouper.JournalDaow.Flush.{collect_pending, write_pending, flush_cycle}
use trouper.JournalDaow.Retained.{passivated-retained}
use trouper.JournalDaow.ColdAppend.{buffer_append-stuck}
use trouper.JournalDaow.Rows.{EventRow, row_of}
use trouper.JournalDaow.Durable.{flush_cycle-IsKept}
use trouper.JournalDaow.Cold.{passivated}
use trouper.JournalDaow.Ledger.{Ledger}
use trouper.JournalDaow.Grow.{with_events, live, unborn}
use trouper.JournalDaow.Runs.{
  World, Step, Steps, IsKept, starts, goes_on, appends, captures, writes, passivates, build-IsKept,
  Steps-IsKept,
}
use trouper.JournalDaow.TableDatabase.{texts, Tables, table_database}

abbrev blank : Tables
blank = record { rows = λ path. []; snapshots = λ path. none; highest = none }

abbrev nothing_yet : ActorPath → Ledger String String
nothing_yet path = record { events = []; latest = none }

abbrev fresh : World table_database texts
fresh = record {
  shared = build table_database texts blank;
  in_flight = none;
  ledgers = nothing_yet;
}

fresh-IsKept : IsKept table_database texts fresh
fresh-IsKept =
    build-IsKept table_database texts blank nothing_yet (λ q. record { rows = refl; text = refl })
      (λ q. record { counted = tt; fits = omega arith })

abbrev placed : String → Event String
placed text = record { schema = "shop/Placed/v1"; payload = text }

abbrev two_placed : List (Event String)
two_placed = placed "pear" ∷ placed "plum" ∷ []

abbrev with_two : Journal String String
with_two = record {
  entries = event 0 (placed "pear") recorded 1 ∷ event 1 (placed "plum") recorded 2 ∷ [];
  event_count = 2;
  last_snapshot_ms = none;
}

abbrev two_buffer : PathBuffer String String
two_buffer = record {
  journal = with_two;
  flushed_entry_count = 0;
  drop_when_durable = false;
  activation_in_progress = false;
}

abbrev holding_two : Shared table_database texts
holding_two = record {
  journals = update "orders" (some two_buffer) (λ path. none);
  db = blank;
  ingest_seq = 3;
}

abbrev ledgers_two : ActorPath → Ledger String String
ledgers_two = update "orders" (with_events 1 two_placed (nothing_yet "orders")) nothing_yet

abbrev acknowledged : World table_database texts
acknowledged = record { shared = holding_two; in_flight = none; ledgers = ledgers_two }

appends_two : Step table_database texts fresh acknowledged
unfolding buffer_append build
appends_two =
    appends "orders" two_placed fresh holding_two (0 ∷ 1 ∷ []) (unborn refl refl) (omega arith)
      (omega arith) refl

abbrev capturing : World table_database texts
capturing = record acknowledged {
  in_flight = some (collect_pending table_database texts ("orders" ∷ []) holding_two);
}

captures_two : Step table_database texts acknowledged capturing
captures_two = captures ("orders" ∷ []) acknowledged (refl, tt) refl

abbrev three_buffer : PathBuffer String String
three_buffer = record two_buffer {
  journal = record {
    entries = with_two.entries ++ event 2 (placed "quince") recorded 3 ∷ [];
    event_count = 3;
    last_snapshot_ms = none;
  };
}

abbrev holding_three : Shared table_database texts
holding_three = record {
  journals = update "orders" (some three_buffer) holding_two.journals;
  db = blank;
  ingest_seq = 4;
}

abbrev ledgers_three : ActorPath → Ledger String String
ledgers_three =
    update "orders" (with_events 3 (placed "quince" ∷ []) (ledgers_two "orders")) ledgers_two

abbrev overtaken : World table_database texts
overtaken = record capturing { shared = holding_three; ledgers = ledgers_three }

-- A third order comes between the capture and the write.
appends_third : Step table_database texts capturing overtaken
unfolding buffer_append
appends_third =
    appends "orders" (placed "quince" ∷ []) capturing holding_three (2 ∷ [])
      (live two_buffer refl refl) (omega arith) (omega arith) refl

abbrev written : World table_database texts
written = record overtaken {
  shared =
      (write_pending table_database texts false
        (collect_pending table_database texts ("orders" ∷ []) holding_two) holding_three).0;
  in_flight = none;
}

writes_two : Step table_database texts overtaken written
writes_two =
    writes false (collect_pending table_database texts ("orders" ∷ []) holding_two) overtaken refl

abbrev asleep : World table_database texts
asleep = record written {
  shared = (passivated table_database texts "orders" true written.shared).0;
}

-- The database fails at the passivation.
passivates_badly : Step table_database texts written asleep
passivates_badly = passivates "orders" true written refl

abbrev the_run : Steps table_database texts fresh asleep
the_run =
    goes_on
      (goes_on (goes_on (goes_on (goes_on starts appends_two) captures_two) appends_third)
        writes_two)
      passivates_badly

two-IsKept : IsKept table_database texts acknowledged
two-IsKept = Steps-IsKept table_database texts (goes_on starts appends_two) fresh-IsKept

passivated-retained_example :
    let r = passivated table_database texts "orders" false holding_two in
    (r.1 ≡ true)
    × (b' : PathBuffer String String) × (r.0.journals "orders" ≡ some b')
    × (b'.journal ≡ with_two)
    × (b'.drop_when_durable ≡ true)
    × ((order : List ActorPath) (fails : Bool)
        → (flush_cycle table_database texts order fails r.0).0.journals "orders" ≡ some b')
passivated-retained_example =
    passivated-retained table_database texts "orders" two_buffer holding_two ledgers_two
      two-IsKept.holds refl refl (λ e. ground (arith, e))

only_orders :
    (q : ActorPath) (b : PathBuffer String String)
    → holding_two.journals q ≡ some b
    → contains ("orders" ∷ []) q ≡ true
only_orders q b e = elim (Bool-cases (str_eq q "orders")) [
  | inl f ↦ ground (arith, f, eq_iff q "orders", eq_iff "orders" q)
  | inr f ↦ absurd (some≢none (sym (rw f at e)))
]

flush_cycle-IsKept_example :
    let r = flush_cycle table_database texts ("orders" ∷ []) false holding_two in
    (r.1 ≡ true)
    × IsKept table_database texts (record {
      shared = build table_database texts r.0.db;
      in_flight = none;
      ledgers = ledgers_two;
    })
flush_cycle-IsKept_example =
    flush_cycle-IsKept table_database texts ("orders" ∷ []) holding_two ledgers_two (refl, tt)
      only_orders two-IsKept.holds two-IsKept.ledger

-- An order in the database, of a store that is gone.
abbrev old_row : EventRow
old_row =
    row_of texts (record { seq = 0; journaled = placed "apple"; origin = recorded; ingest_seq = 1 })

abbrev one_stored : Tables
one_stored = record {
  rows = λ p. if str_eq p "orders" then old_row ∷ [] else [];
  snapshots = λ p. none;
  highest = some 1;
}

abbrev reopened : Shared table_database texts
reopened = record { journals = λ p. none; db = one_stored; ingest_seq = 2 }

abbrev cold_buffer : PathBuffer String String
cold_buffer = record two_buffer {
  journal = record {
    entries = event 0 (placed "pear") recorded 2 ∷ [];
    event_count = 1;
    last_snapshot_ms = none;
  };
}

abbrev not_loaded : Shared table_database texts
not_loaded = record {
  journals = update "orders" (some cold_buffer) (λ p. none);
  db = one_stored;
  ingest_seq = 3;
}

starts_anew :
    buffer_append table_database texts "orders" (placed "pear" ∷ []) reopened
    ≡ some (not_loaded, 0 ∷ [])
unfolding buffer_append
starts_anew = refl

buffer_append-stuck_example :
    flush_cycle table_database texts ("orders" ∷ []) false not_loaded ≡ (not_loaded, false)
buffer_append-stuck_example =
    buffer_append-stuck table_database texts "orders" (placed "pear") reopened not_loaded (0 ∷ [])
      old_row [] refl refl refl (λ e. ground (arith, e)) starts_anew false []
