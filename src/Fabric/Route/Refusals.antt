-- ===== src/Fabric/Route/Refusals.antt =====
-- A delivery of src/kernel.rs hands back the envelope that it was given, or the endpoint has it.
use trouper.Prelude.{
  ◌≡◌, refl, sym, ap, subst, ◌⊎◌, inl, inr, [], ◌∷◌, ◌++◌, some≢none, Option, none, some,
  Bool-cases, returns, IfReturns, IfReturns-bind, Run-cases,
}
use trouper.Envelope.{Envelope}
use trouper.Inbox.{
  Inbox, Pushed, ok, err, full, evicted, closed, push, into_envelope, queued_anyway,
}
use trouper.Inbox.Refusals.{Refuses, push-Refuses}
use trouper.Kernel.Delivery.{Door, direct_push}
use trouper.Fabric.{Endpoint, deliver, deliver_with_retry, fall_back}

module _ {P : Type 0} where
  abbrev pub HandsBack : Envelope P → Option (Envelope P) → Type 0
  HandsBack e none = Unit
  HandsBack e (some back) = back ≡ e

  abbrev HandsOn : Envelope P → Door P × Option (Envelope P) → Type 0
  HandsOn e r = HandsBack e r.1

  direct_push-answered :
      (e : Envelope P) (d : Door P) (r : Inbox (Envelope P) × Pushed (Envelope P))
      → push e d.inbox ≡ returns r
      → Refuses e r.1
      → IfReturns (HandsOn e) (direct_push e d)
  unfolding direct_push into_envelope queued_anyway
  direct_push-answered e d (q, ok o) h k = rw (direct_push, h) tt
  direct_push-answered e d (q, err (full back)) h k = rw (direct_push, h) k
  direct_push-answered e d (q, err (evicted old)) h k = rw (direct_push, h) tt
  direct_push-answered e d (q, err (closed back)) h k = rw (direct_push, h) k

  direct_push-HandsBack : (e : Envelope P) (d : Door P) → IfReturns (HandsOn e) (direct_push e d)
  unfolding direct_push
  direct_push-HandsBack e d = elim (Run-cases (push e d.inbox)) [
    | inl h ↦ rw (direct_push, h) tt
    | inr (r, h) ↦
        direct_push-answered e d r h
          (subst (IfReturns (λ r. Refuses e r.1)) h (push-Refuses e d.inbox))
  ]

  pub deliver-HandsBack :
      (e : Envelope P) (ep : Endpoint P) → IfReturns (λ r. HandsBack e r.1) (deliver e ep)
  unfolding deliver deliver_with_retry
  deliver-HandsBack e ep =
      IfReturns-bind (HandsOn e) (λ r. HandsBack e r.1) (direct_push e ep.door)
        (λ r. returns (fall_back ep r)) (direct_push-HandsBack e ep.door)
        (λ r h. fall_back-HandsBack ep r h)
    where
      fall_back-HandsBack :
          (ep : Endpoint P) (r : Door P × Option (Envelope P))
          → HandsOn e r
          → HandsBack e (fall_back ep r).1
      fall_back-HandsBack ep (d, none) h = tt
      fall_back-HandsBack ep (d, some back) h = elim (Bool-cases ep.is_closed) [
        | inl c ↦ rw (c) h
        | inr c ↦ rw (c) tt
      ]

  -- The endpoint has the envelope: its door took it, or it stands at the end of the channel.
  abbrev pub Taken : Envelope P → Endpoint P → Endpoint P → Type 0
  Taken e ep ep' =
      ((direct_push e ep.door ≡ returns (ep'.door, none)) × (ep'.channel ≡ ep.channel))
      ⊎ (ep'.channel ≡ ep.channel ++ e ∷ [])

  pub deliver_with_retry-Taken :
      (e : Envelope P) (ep : Endpoint P)
      → (deliver_with_retry e ep).1 ≡ none
      → Taken e ep (deliver_with_retry e ep).0
  unfolding deliver_with_retry
  deliver_with_retry-Taken e ep n = elim (Bool-cases ep.is_closed) [
    | inl c ↦ absurd (some≢none (rw (c, deliver_with_retry) at n))
    | inr c ↦ rw (c, deliver_with_retry) (inr refl)
  ]

  fall_back-Taken :
      (e : Envelope P) (ep : Endpoint P) (r : Door P × Option (Envelope P))
      → direct_push e ep.door ≡ returns r
      → HandsOn e r
      → (fall_back ep r).1 ≡ none
      → Taken e ep (fall_back ep r).0
  unfolding deliver_with_retry
  fall_back-Taken e ep (d, none) m h n = inl (m, refl)
  fall_back-Taken e ep (d, some back) m h n = elim (Bool-cases ep.is_closed) [
    | inl c ↦ absurd (some≢none (rw c at n))
    | inr c ↦ rw c (inr (ap (λ x. ep.channel ++ x ∷ []) h))
  ]

  pub deliver-Taken :
      (e : Envelope P) (ep : Endpoint P)
      → IfReturns (λ r. r.1 ≡ none → Taken e ep r.0) (deliver e ep)
  unfolding deliver
  deliver-Taken e ep = elim (Run-cases (direct_push e ep.door)) [
    | inl m ↦ rw (deliver, m) tt
    | inr (r, m) ↦
        let eq : deliver e ep ≡ returns (fall_back ep r) = rw (deliver, m) refl in
        subst (IfReturns (λ r. r.1 ≡ none → Taken e ep r.0)) (sym eq) (
          fall_back-Taken e ep r m
            (subst (IfReturns (HandsOn e)) m (direct_push-HandsBack e ep.door)))
  ]
