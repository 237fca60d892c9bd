-- ===== src/Kernel/Delivery/Direct.antt =====
-- What `direct_push` of src/kernel.rs does with an envelope.
use trouper.Prelude.{
  ◌+◌, ◌<◌, ◌≡◌, refl, sym, ap, ◌∙◌, ◌≢◌, ◌⊎◌, inl, inr, Option, none, some, List, [], ◌∷◌, ◌++◌,
  map, append-nil, Bool-cases, u64_mod, returns,
}
use trouper.Envelope.{Envelope}
use trouper.Inbox.{
  drop_old, Pushed, ok, err, full, evicted, closed, Inbox, push, into_envelope, queued_anyway,
}
use trouper.Inbox.Wf.{IsWf}
use trouper.Inbox.Policy.{FrontIsLive, live, Answers, push-Answers}
use trouper.Kernel.Outbox.{DeadLetter, inbox_refused}
use trouper.Kernel.Delivery.{Door, check_watermark, direct_push}

module _ {P : Type 0} where
  abbrev pub refused_letter : Envelope P → DeadLetter P
  refused_letter e = record { reason = inbox_refused; envelope = e }

  -- Delivered: `lost` were evicted into the dead letters, and what is left is the old mail with the
  -- new envelope behind it. Handed back: nothing changed.
  abbrev pub Delivers : Envelope P → Door P → Door P × Option (Envelope P) → Type 0
  Delivers e d (d', none) =
      (lost : List (Envelope P)) × (lost ++ live d'.inbox.queue ≡ live d.inbox.queue ++ e ∷ [])
      × (d'.dead_letters ≡ d.dead_letters ++ map refused_letter lost)
      × (d'.wakes ≡ d.wakes + 1)
  Delivers e d (d', some back) = (back ≡ e) × (d' ≡ d)

  check_watermark-keeps :
      (d : Door P)
      → ((check_watermark d).inbox ≡ d.inbox)
        × ((check_watermark d).dead_letters ≡ d.dead_letters)
        × ((check_watermark d).wakes ≡ d.wakes)
  unfolding check_watermark
  check_watermark-keeps d = elim (Bool-cases d.has_watermark) [
    | inl h ↦ rw (h, check_watermark) (refl, refl, refl)
    | inr h ↦ rw (h, check_watermark) (refl, refl, refl)
  ]

  direct_push-at :
      (e : Envelope P) (d : Door P) (r : Inbox (Envelope P) × Pushed (Envelope P))
      → push e d.inbox ≡ returns r
      → Answers e d.inbox r
      → (s : Door P × Option (Envelope P)) × (direct_push e d ≡ returns s) × Delivers e d s
  unfolding direct_push into_envelope queued_anyway
  direct_push-at e d (q, ok o) h a =
      let d' = check_watermark (record d { inbox = q }) in
      let k = check_watermark-keeps (record d { inbox = q }) in
      (
        (record d' { wakes = d'.wakes + 1 }, none),
        rw (h, direct_push) refl,
        (
          [],
          ap (λ (i : Inbox (Envelope P)). live i.queue) k.0 ∙ a.2,
          k.1 ∙ sym (append-nil _),
          ap (λ n. n + 1) k.2,
        ),
      )
  direct_push-at e d (q, err (full back)) h a = (
    (record d { inbox = q }, some back),
    rw (h, direct_push) refl,
    (a.0, ap (λ i. record d { inbox = i }) a.1),
  )
  direct_push-at e d (q, err (evicted old)) h a =
      let d' = check_watermark (record d { inbox = q }) in
      let k = check_watermark-keeps (record d { inbox = q }) in
      (
        (
          record d' {
            dead_letters = d'.dead_letters ++ refused_letter old ∷ [];
            wakes = d'.wakes + 1;
          },
          none,
        ),
        rw (h, direct_push) refl,
        (
          old ∷ [],
          ap (λ (i : Inbox (Envelope P)). old ∷ live i.queue) k.0 ∙ a.0,
          ap (λ l. l ++ refused_letter old ∷ []) k.1,
          ap (λ n. n + 1) k.2,
        ),
      )
  direct_push-at e d (q, err (closed back)) h a = (
    (record d { inbox = q }, some back),
    rw (h, direct_push) refl,
    (a.0, ap (λ i. record d { inbox = i }) a.1),
  )

  -- A delivery neither loses nor doubles a message, and returns unless it has to evict a claimed slot.
  -- Either the envelope is behind the old mail, what had to make room for it is in the dead letters,
  -- and the loop is woken once; or the envelope is handed back and nothing else happened.
  pub direct_push-Delivers :
      (e : Envelope P) (d : Door P)
      → IsWf d.inbox
      → d.inbox.next_offset + 1 < u64_mod
      → (d.inbox.policy ≢ drop_old) ⊎ FrontIsLive d.inbox.queue
      → (r : Door P × Option (Envelope P)) × (direct_push e d ≡ returns r) × Delivers e d r
  direct_push-Delivers e d w n f =
      let (r, pushed, a) = push-Answers e d.inbox w n f in direct_push-at e d r pushed a
