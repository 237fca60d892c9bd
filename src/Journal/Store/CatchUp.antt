-- ===== src/Journal/Store/CatchUp.antt =====
-- The idempotence of `append_catchup` in src/journal.rs.
use trouper.Prelude.{
  ℕ, ◌≡◌, refl, sym, subst, inl, inr, true, false, none, List, [], ◌∷◌, map, arith, eq_iff,
  Bool-cases, add_u64, All, any-append, any-snoc,
}
use trouper.Journal.{
  ActorPath, SeqNo, Event, EventOrigin, catch_up, Journal, ScannedEvent, append_event_with_origin,
  is_origin, holds_origin, append_catchup,
}

module _ {P S : Type 0} where
  -- The journal holds every fact of the list.
  abbrev pub HoldsAll : List (ScannedEvent P) → Journal P S → Type 0
  HoldsAll scs j = All (λ (sc : ScannedEvent P). holds_origin sc.journal sc.seq j ≡ true) scs

  holds_origin-append :
      (source : ActorPath) (seq : SeqNo) (ev : Event P) (o : EventOrigin) (ingest : ℕ)
      (j : Journal P S)
      → holds_origin source seq j ≡ true
      → holds_origin source seq (append_event_with_origin ev o ingest j).0 ≡ true
  unfolding holds_origin append_event_with_origin
  holds_origin-append source seq ev o ingest j h = any-append (is_origin source seq) j.entries _ h

  pub holds_origin-new :
      (source : ActorPath) (seq : SeqNo) (ev : Event P) (ingest : ℕ) (j : Journal P S)
      → holds_origin source seq (append_event_with_origin ev (catch_up source seq) ingest j).0
        ≡ true
  unfolding holds_origin append_event_with_origin
  holds_origin-new source seq ev ingest j =
      any-snoc (is_origin source seq) j.entries _ (ground (arith, eq_iff source source))

  holds_origin-append_catchup :
      (source : ActorPath) (seq : SeqNo) (scs : List (ScannedEvent P)) (ingest : ℕ)
      (j : Journal P S)
      → holds_origin source seq j ≡ true
      → holds_origin source seq (append_catchup scs ingest j).0 ≡ true
  unfolding append_catchup
  holds_origin-append_catchup source seq [] ingest j h = h
  holds_origin-append_catchup source seq (sc ∷ scs) ingest j h =
      elim (Bool-cases (holds_origin sc.journal sc.seq j)) [
        | inl held ↦
            rw (held, append_catchup) (holds_origin-append_catchup source seq scs ingest j h)
        | inr free ↦
            rw (free, append_catchup)
              (holds_origin-append_catchup source seq scs (add_u64 ingest 1) _
                (holds_origin-append source seq sc.scanned (catch_up sc.journal sc.seq) ingest j h))
      ]

  append_catchup-skips :
      (sc : ScannedEvent P) (scs : List (ScannedEvent P)) (ingest : ℕ) (j : Journal P S)
      → holds_origin sc.journal sc.seq j ≡ true
      → (append_catchup (sc ∷ scs) ingest j).0 ≡ (append_catchup scs ingest j).0
  unfolding append_catchup
  append_catchup-skips sc scs ingest j held = rw (held, append_catchup) refl

  append_catchup-takes :
      (sc : ScannedEvent P) (scs : List (ScannedEvent P)) (ingest : ℕ) (j : Journal P S)
      → holds_origin sc.journal sc.seq j ≡ false
      → (append_catchup (sc ∷ scs) ingest j).0
        ≡ (append_catchup scs
            (add_u64 ingest 1)
            (append_event_with_origin sc.scanned (catch_up sc.journal sc.seq) ingest j).0).0
  unfolding append_catchup
  append_catchup-takes sc scs ingest j free = rw (free, append_catchup) refl

  append_catchup-HoldsAll :
      (scs : List (ScannedEvent P)) (ingest : ℕ) (j : Journal P S)
      → HoldsAll scs (append_catchup scs ingest j).0
  append_catchup-HoldsAll [] ingest j = tt
  append_catchup-HoldsAll (sc ∷ scs) ingest j =
      elim (Bool-cases (holds_origin sc.journal sc.seq j)) [
        | inl held ↦ subst (HoldsAll (sc ∷ scs)) (sym (append_catchup-skips sc scs ingest j held)) (
          holds_origin-append_catchup sc.journal sc.seq scs ingest j held,
          append_catchup-HoldsAll scs ingest j,
        )
        | inr free ↦
            let j' =
              (append_event_with_origin sc.scanned (catch_up sc.journal sc.seq) ingest j).0 in
            subst (HoldsAll (sc ∷ scs)) (sym (append_catchup-takes sc scs ingest j free)) (
              holds_origin-append_catchup sc.journal sc.seq scs (add_u64 ingest 1) j'
                  (holds_origin-new sc.journal sc.seq sc.scanned ingest j),
              append_catchup-HoldsAll scs (add_u64 ingest 1) j',
            )
      ]

  append_catchup-held :
      (scs : List (ScannedEvent P)) (ingest : ℕ) (j : Journal P S)
      → HoldsAll scs j
      → append_catchup scs ingest j ≡ (j, map (λ sc. none) scs, ingest)
  unfolding append_catchup
  append_catchup-held [] ingest j h = refl
  append_catchup-held (sc ∷ scs) ingest j h =
      rw (h.0, append_catchup, append_catchup-held scs ingest j h.1) refl

  -- A catch-up is its own checkpoint: a second run over the same facts appends nothing, answers that
  -- each is held, and draws no arrival number.
  pub append_catchup-again :
      (scs : List (ScannedEvent P)) (ingest again : ℕ) (j : Journal P S)
      → let j' = (append_catchup scs ingest j).0 in
        append_catchup scs again j' ≡ (j', map (λ sc. none) scs, again)
  append_catchup-again scs ingest again j =
      append_catchup-held scs again (append_catchup scs ingest j).0
        (append_catchup-HoldsAll scs ingest j)
