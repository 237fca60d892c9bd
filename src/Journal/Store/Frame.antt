-- ===== src/Journal/Store/Frame.antt =====
-- What the calls of the in-memory store of src/journal.rs leave alone.
use trouper.Prelude.{
  ◌+◌, ◌<◌, ◌≡◌, refl, sym, ap, subst, ◌∙◌, ◌≢◌, inl, inr, none, some, List, [], ◌∷◌, ◌++◌, arith,
  str_eq, eq_iff, Bool-cases, u64_mod, u64_max, length,
}
use trouper.Journal.{ActorPath, Event, Journal, events_of, append_events}
use trouper.Journal.Seqs.{IsDense}
use trouper.Journal.Append.{count_from, append_events-IsDense}
use trouper.Journal.Store.{
  InMemoryJournalStore, get_journal, entry_or_default, set_journal, remove_journal, store_append,
  load, purge,
}

module _ {P S : Type 0} where
  get_journal-set_same :
      (p : ActorPath) (j : Journal P S) (js : List (ActorPath × Journal P S))
      → get_journal p (set_journal p j js) ≡ some j
  unfolding get_journal set_journal
  get_journal-set_same p j [] = ground (arith, eq_iff p p)
  get_journal-set_same p j ((q, k) ∷ rest) = elim (Bool-cases (str_eq q p)) [
    | inl e ↦ ground (arith, e)
    | inr e ↦ ground (arith, e, get_journal-set_same p j rest)
  ]

  get_journal-set_other :
      (p q : ActorPath) (j : Journal P S) (js : List (ActorPath × Journal P S))
      → q ≢ p
      → get_journal q (set_journal p j js) ≡ get_journal q js
  unfolding get_journal set_journal
  get_journal-set_other p q j [] n = ground (arith, eq_iff p q, n)
  get_journal-set_other p q j ((r, k) ∷ rest) n = elim (Bool-cases (str_eq r p)) [
    | inl e ↦ ground (arith, e, eq_iff r p, eq_iff r q, n)
    | inr e ↦ ground (arith, e, get_journal-set_other p q j rest n)
  ]

  get_journal-remove_same :
      (p : ActorPath) (js : List (ActorPath × Journal P S))
      → get_journal p (remove_journal p js) ≡ none
  unfolding get_journal remove_journal
  get_journal-remove_same p [] = refl
  get_journal-remove_same p ((q, k) ∷ rest) = ground (arith, get_journal-remove_same p rest)

  get_journal-remove_other :
      (p q : ActorPath) (js : List (ActorPath × Journal P S))
      → q ≢ p
      → get_journal q (remove_journal p js) ≡ get_journal q js
  unfolding get_journal remove_journal
  get_journal-remove_other p q [] n = refl
  get_journal-remove_other p q ((r, k) ∷ rest) n =
      ground (arith, get_journal-remove_other p q rest n, eq_iff r p, eq_iff r q, n)

  -- An append lands at its path and nowhere else. The path's journal gets the events behind its own,
  -- under the next sequences, created empty if there was none; the journal of every other path, and
  -- so its recovery, is what it was; and the store's arrival counter moves by the number of events.
  store_append-load :
      (p q : ActorPath) (evs : List (Event P)) (store : InMemoryJournalStore P S)
      → q ≢ p
      → IsDense (entry_or_default p store.journals)
      → (entry_or_default p store.journals).event_count + length evs < u64_max
      → store.ingest + length evs < u64_mod
      → let before = entry_or_default p store.journals in
        let r = store_append p evs store in
        let now = entry_or_default p r.0.journals in
        IsDense now
        × (events_of now.entries ≡ events_of before.entries ++ evs)
        × (r.1 ≡ count_from before.event_count (length evs))
        × (r.0.ingest ≡ store.ingest + length evs)
        × (load q r.0 ≡ load q store)
  unfolding store_append entry_or_default load
  store_append-load p q evs store n d f g =
      let j = entry_or_default p store.journals in
      let m = append_events-IsDense evs store.ingest j d f g in
      let j' = (append_events evs store.ingest j).0 in
      let here : entry_or_default p (set_journal p j' store.journals) ≡ j' =
        rw (get_journal-set_same p j' store.journals, entry_or_default) refl in
      (
        subst IsDense (sym here) m.0,
        ap (λ (k : Journal P S). events_of k.entries) here ∙ m.1,
        m.2,
        m.4,
        rw (get_journal-set_other p q j' store.journals n, load) refl,
      )

  -- A purge forgets the path's journal and no other's, and the arrival counter goes on from where it
  -- was.
  pub purge-load :
      (p q : ActorPath) (store : InMemoryJournalStore P S)
      → q ≢ p
      → (load p (purge p store) ≡ none)
        × (load q (purge p store) ≡ load q store)
        × ((purge p store).ingest ≡ store.ingest)
  unfolding purge load
  purge-load p q store n = (
    rw (get_journal-remove_same p store.journals, load) refl,
    rw (get_journal-remove_other p q store.journals n, load) refl,
    refl,
  )
