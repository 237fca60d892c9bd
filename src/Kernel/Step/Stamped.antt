-- ===== src/Kernel/Step/Stamped.antt =====
-- The catch-up arm of `step_es` in src/kernel.rs, for an actor that answers one broadcast fact with
-- several events.
use trouper.Prelude.{
  ℕ, ◌+◌, min, ◌≡◌, refl, ap, ◌∙◌, true, false, some, List, [], ◌∷◌, ◌++◌, map, arith, add_u64,
  length, drop, returns,
}
use trouper.Journal.{
  Event, catch_up, event, Journal, ScannedEvent, next_seq, append_event_with_origin, holds_origin,
  events_of, append_catchup,
}
use trouper.Journal.Store.CatchUp.{holds_origin-new}
use trouper.Journal.Seqs.{events_of-append}
use trouper.Envelope.{Envelope, RecordedOrigin}
use trouper.Actor.{EventSourced}
use trouper.Inbox.{Inbox}
use trouper.Inbox.Claims.{IsSettled, batch_of, numbered}
use trouper.Inbox.Commits.{commit_each-claimed, length-drop-min}
use trouper.Kernel.Outbox.{Intent}
use trouper.Kernel.Decide.{same_origin, work, already_held, Cell, EsLoop, append_stage, all_some}
use trouper.Kernel.Step.{commit_step}
use trouper.Kernel.Step.Crash.{claimed_cell}

module _ {P S : Type 0} (a : EventSourced P S) where
  abbrev pub stamped_with : RecordedOrigin → List (Event P) → List (ScannedEvent P)
  stamped_with o events =
      map (λ ev. record { journal = o.journal; seq = o.seq; ingest_seq = 0; scanned = ev }) events

  -- Nothing of a fact that the journal holds is appended.
  append_catchup-held :
      (o : RecordedOrigin) (events : List (Event P)) (ingest : ℕ) (j : Journal P S)
      → holds_origin o.journal o.seq j ≡ true
      → ((append_catchup (stamped_with o events) ingest j).0 ≡ j)
        × ((append_catchup (stamped_with o events) ingest j).2 ≡ ingest)
  unfolding append_catchup
  append_catchup-held o [] ingest j h = (refl, refl)
  append_catchup-held o (ev ∷ evs) ingest j h =
      rw (h, append_catchup) (append_catchup-held o evs ingest j h)

  appended_one :
      (o : RecordedOrigin) (ev : Event P) (evs : List (Event P)) (ingest : ℕ) (j : Journal P S)
      → holds_origin o.journal o.seq j ≡ false
      → let r = append_catchup (stamped_with o (ev ∷ evs)) ingest j in
        (r.0 ≡ (append_event_with_origin ev (catch_up o.journal o.seq) ingest j).0)
        × (r.2 ≡ add_u64 ingest 1)
  unfolding append_catchup
  appended_one o ev evs ingest j h =
      let r =
        append_catchup-held o evs (add_u64 ingest 1)
          (append_event_with_origin ev (catch_up o.journal o.seq) ingest j).0
          (holds_origin-new o.journal o.seq ev ingest j) in
      rw (h, append_catchup) r

  slots-held :
      (o : RecordedOrigin) (ev : Event P) (evs : List (Event P)) (ingest : ℕ) (j : Journal P S)
      → holds_origin o.journal o.seq j ≡ true
      → all_some a (append_catchup (stamped_with o (ev ∷ evs)) ingest j).1 ≡ false
  unfolding append_catchup
  slots-held o ev evs ingest j h = rw (h, append_catchup) refl

  slots-two :
      (o : RecordedOrigin) (ev ev' : Event P) (evs : List (Event P)) (ingest : ℕ) (j : Journal P S)
      → holds_origin o.journal o.seq j ≡ false
      → all_some a (append_catchup (stamped_with o (ev ∷ ev' ∷ evs)) ingest j).1 ≡ false
  unfolding append_catchup
  slots-two o ev ev' evs ingest j h =
      rw (h, append_catchup)
        (slots-held o ev' evs (add_u64 ingest 1)
          (append_event_with_origin ev (catch_up o.journal o.seq) ingest j).0
          (holds_origin-new o.journal o.seq ev ingest j))

  append_stage-stamped :
      (batch : List (ℕ × Envelope P)) (w : Cell a) (o : RecordedOrigin) (ev ev' : Event P)
      (evs : List (Event P))
      → same_origin a batch ≡ some o
      → holds_origin o.journal o.seq w.journal ≡ false
      → append_stage a false batch (ev ∷ ev' ∷ evs) w ≡ (
          let r = append_catchup (stamped_with o (ev ∷ ev' ∷ evs)) w.next_ingest w.journal in
          already_held r.0 r.2)
  unfolding append_stage
  append_stage-stamped batch w o ev ev' evs st h =
      rw (st, append_stage, slots-two o ev ev' evs w.next_ingest w.journal h) refl

  -- The bug of the catch-up arm: when a batch is stamped with one recorded fact that the journal does
  -- not hold, and the handlers answer it with two events or more, the step commits the messages and
  -- journals the first event, but folds none of them into the live state, and the other events are
  -- in no journal. The second event collides with the first on the fact's origin.
  pub commit_step-stamped_lost :
      (loop : EsLoop a) (now n : ℕ) (w : Cell a) (es : List (Envelope P)) (o : RecordedOrigin)
      (outboxes : List (List (Intent P))) (ev ev' : Event P) (evs : List (Event P))
      → IsSettled w.inbox es
      → same_origin a (batch_of n w.inbox.cursor es) ≡ some o
      → holds_origin o.journal o.seq w.journal ≡ false
      → (w' : Cell a) × (commit_step a loop false now
            (batch_of n w.inbox.cursor es)
            outboxes
            (ev ∷ ev' ∷ evs)
            (claimed_cell a n es w.dead_letters w)
          ≡ returns (w', work))
        × IsSettled w'.inbox (drop n es)
        × (w'.live ≡ w.live)
        × (events_of w'.journal.entries ≡ events_of w.journal.entries ++ ev ∷ [])
  unfolding commit_step append_event_with_origin next_seq
  commit_step-stamped_lost loop now n w es o outboxes ev ev' evs s st h =
      let r = append_catchup (stamped_with o (ev ∷ ev' ∷ evs)) w.next_ingest w.journal in
      let claims = claimed_cell a n es w.dead_letters w in
      let q : Inbox (Envelope P) = record w.inbox {
        queue = numbered (w.inbox.cursor + min n (length es)) (drop n es);
        cursor = w.inbox.cursor + min n (length es);
      } in
      (
        record w { inbox = q; journal = r.0; next_ingest = r.2 },
        rw
            (
              append_stage-stamped (batch_of n w.inbox.cursor es) claims o ev ev' evs st h,
              commit_step,
              commit_each-claimed n w.inbox.cursor claims.inbox es refl refl s.ends s.fits,
            )
            refl,
        record { holds = refl; ends = omega (arith, length-drop-min n es, s.ends); fits = s.fits },
        refl,
        ap (λ (j : Journal P S). events_of j.entries)
              (appended_one o ev (ev' ∷ evs) w.next_ingest w.journal h).0
            ∙ events_of-append w.journal.entries
                (event w.journal.event_count ev (catch_up o.journal o.seq) w.next_ingest ∷ []),
      )
