-- ===== src/Kernel/Delivery/Holding.antt =====
-- What `push_holding_block` of src/kernel.rs comes to.
use trouper.Prelude.{
  ℕ, zero, suc, ◌≡◌, refl, sym, ap, subst, ◌∙◌, ◌≢◌, ◌⊎◌, inl, inr, Bool, true, false, ◌&&◌, List,
  [], ◌∷◌, ◌++◌, Bool-cases, returns, IfReturns,
}
use mathlib.Core.Bool.{false≢true}
use trouper.Envelope.{Envelope}
use trouper.Inbox.{
  OverloadPolicy, drop_old, Refused, full, evicted, closed, ok, err, Inbox, push, into_envelope,
}
use trouper.Inbox.Refusals.{Pushed-cases, Refuses, push-Refuses, push-Returned}
use trouper.Kernel.Outbox.{DeadLetter, inbox_refused}
use trouper.Kernel.Delivery.Hold.{
  Held, hold, push_holding_block, is_block, is_full, given_up, block_hold_max_parks,
}

-- The branch that is taken.
chosen_true {ℓ} :
    {A : Type ℓ} (x y : A) (b : Bool) → b ≡ true → (elim b [ true ↦ x | false ↦ y ]) ≡ x
chosen_true x y true h = refl
chosen_true x y false h = absurd (false≢true h)

chosen_false {ℓ} :
    {A : Type ℓ} (x y : A) (b : Bool) → b ≡ false → (elim b [ true ↦ x | false ↦ y ]) ≡ y
chosen_false x y true h = absurd (false≢true (sym h))
chosen_false x y false h = refl

module _ {P : Type 0} where
  -- The parks of a hold: from a number of parks that are left and an inbox to what they are later. A hold
  -- parks only where a push found the inbox full, under Block.
  pub data Parked (policy : OverloadPolicy) (resumed : ℕ → Inbox (Envelope P) → Inbox (Envelope P))
      (e : Envelope P) : ℕ → Inbox (Envelope P) → ℕ → Inbox (Envelope P) → Type 0 where
    here : (k : ℕ) (q : Inbox (Envelope P)) → Parked policy resumed e k q k q
    waits :
        {m : ℕ} {z : Inbox (Envelope P)} (k : ℕ) (q q' : Inbox (Envelope P))
        (r : Refused (Envelope P))
        → push e q ≡ returns (q', err r)
        → (is_full r && is_block policy) ≡ true
        → Parked policy resumed e k (resumed k q') m z
        → Parked policy resumed e (suc k) q m z

  -- Accepted: the push behind the parks took the envelope. Given up: that push was refused, for another
  -- reason than a full inbox under Block, or with no park left; and one dead letter.
  abbrev pub Settled :
      OverloadPolicy
      → (ℕ → Inbox (Envelope P) → Inbox (Envelope P))
      → ℕ
      → Envelope P
      → Inbox (Envelope P)
      → List (DeadLetter P)
      → Held P
      → Type 0
  Settled policy resumed cap e q letters h =
      (left : ℕ) × (z : Inbox (Envelope P)) × Parked policy resumed e cap q left z
      × (((o : ℕ) × (push e z ≡ returns (h.inbox, ok o))
            × (h.accepted ≡ true)
            × (h.dead_letters ≡ letters))
          ⊎ ((r : Refused (Envelope P)) × (push e z ≡ returns (h.inbox, err r))
              × ((left ≡ 0) ⊎ ((is_full r && is_block policy) ≡ false))
              × (h.accepted ≡ false)
              × (h.dead_letters
                  ≡ letters ++ record { reason = inbox_refused; envelope = into_envelope r } ∷ [])))

  -- One push, answered.
  hold-ok :
      (policy : OverloadPolicy) (resumed : ℕ → Inbox (Envelope P) → Inbox (Envelope P)) (parks : ℕ)
      (e : Envelope P) (q q' : Inbox (Envelope P)) (letters : List (DeadLetter P)) (o : ℕ)
      → push e q ≡ returns (q', ok o)
      → hold policy resumed parks e q letters
        ≡ returns (record { inbox = q'; dead_letters = letters; accepted = true })
  unfolding hold
  hold-ok policy resumed zero e q q' letters o h = rw (hold, h) refl
  hold-ok policy resumed (suc parks) e q q' letters o h = rw (hold, h) refl

  -- One push that is refused, where the hold gives up.
  hold-gives_up :
      (policy : OverloadPolicy) (resumed : ℕ → Inbox (Envelope P) → Inbox (Envelope P)) (parks : ℕ)
      (e : Envelope P) (q q' : Inbox (Envelope P)) (letters : List (DeadLetter P))
      (f : Refused (Envelope P))
      → push e q ≡ returns (q', err f)
      → (is_full f && is_block policy) ≡ false
      → hold policy resumed parks e q letters ≡ returns (given_up q' f letters)
  unfolding hold
  hold-gives_up policy resumed zero e q q' letters f h g = rw (hold, h) refl
  hold-gives_up policy resumed (suc parks) e q q' letters f h g =
      rw (hold, h) (chosen_false _ _ (is_full f && is_block policy) g)

  -- One push that is refused, where the hold parks.
  hold-parks :
      (policy : OverloadPolicy) (resumed : ℕ → Inbox (Envelope P) → Inbox (Envelope P)) (parks : ℕ)
      (e : Envelope P) (q q' : Inbox (Envelope P)) (letters : List (DeadLetter P))
      (f : Refused (Envelope P))
      → push e q ≡ returns (q', err f)
      → (is_full f && is_block policy) ≡ true
      → hold policy resumed (suc parks) e q letters
        ≡ hold policy resumed parks (into_envelope f) (resumed parks q') letters
  unfolding hold
  hold-parks policy resumed parks e q q' letters f h g =
      rw (hold, h) (chosen_true _ _ (is_full f && is_block policy) g)

  full-into_envelope :
      (e : Envelope P) (f : Refused (Envelope P)) (b : Bool)
      → Refuses e (err f)
      → (is_full f && b) ≡ true
      → into_envelope f ≡ e
  unfolding into_envelope
  full-into_envelope e (full back) b r g = r
  full-into_envelope e (evicted old) b r g = absurd (false≢true g)
  full-into_envelope e (closed back) b r g = absurd (false≢true g)

  pub hold-Settled :
      (policy : OverloadPolicy) (resumed : ℕ → Inbox (Envelope P) → Inbox (Envelope P)) (parks : ℕ)
      (e : Envelope P) (q : Inbox (Envelope P)) (letters : List (DeadLetter P))
      → ((n : ℕ) (i : Inbox (Envelope P)) → (resumed n i).policy ≡ i.policy)
      → q.policy ≢ drop_old
      → (h : Held P) × (hold policy resumed parks e q letters ≡ returns h)
        × Settled policy resumed parks e q letters h
  unfolding hold
  hold-Settled policy resumed zero e q letters k n =
      let ((q', a), h, p) = push-Returned e q n in
      elim (Pushed-cases a) [
        | inl (o, c) ↦
            let h' = h ∙ ap (λ x. returns (q', x)) c in
            (
              _,
              hold-ok policy resumed zero e q q' letters o h',
              (zero, q, here zero q, inl (o, h', refl, refl)),
            )
        | inr (f, c) ↦
            let h' = h ∙ ap (λ x. returns (q', x)) c in
            (
              given_up q' f letters,
              rw (hold, h') refl,
              (zero, q, here zero q, inr (f, h', inl refl, refl, refl)),
            )
      ]
  hold-Settled policy resumed (suc parks) e q letters k n =
      let ((q', a), h, p) = push-Returned e q n in
      elim (Pushed-cases a) [
        | inl (o, c) ↦
            let h' = h ∙ ap (λ x. returns (q', x)) c in
            (
              _,
              hold-ok policy resumed (suc parks) e q q' letters o h',
              (suc parks, q, here (suc parks) q, inl (o, h', refl, refl)),
            )
        | inr (f, c) ↦
            let h' = h ∙ ap (λ x. returns (q', x)) c in
            elim (Bool-cases (is_full f && is_block policy)) [
              | inr g ↦ (
                given_up q' f letters,
                hold-gives_up policy resumed (suc parks) e q q' letters f h' g,
                (suc parks, q, here (suc parks) q, inr (f, h', inr g, refl, refl)),
              )
              | inl g ↦
                  let b =
                    full-into_envelope e f (is_block policy)
                      (subst (IfReturns (λ r. Refuses e r.1)) h' (push-Refuses e q)) g in
                  let (s, t, (left, z, run, end)) =
                    hold-Settled policy resumed parks e (resumed parks q') letters k
                      (λ d. n (sym p ∙ sym (k parks q') ∙ d)) in
                  (
                    s,
                    hold-parks policy resumed parks e q q' letters f h' g
                        ∙ ap (λ x. hold policy resumed parks x (resumed parks q') letters) b
                        ∙ t,
                    (left, z, waits parks q q' f h' g run, end),
                  )
            ]
      ]

  -- A push at the front door ends, if the wakes come and no inbox is under DropOld: it parks as long as
  -- the inbox is full under Block, at most ten thousand times, and the push behind the parks either
  -- queues the envelope, with no dead letter, or is refused, with one dead letter of what it handed back.
  -- It is refused only for another reason than a full inbox under Block, or when all ten thousand
  -- parks are used up. What happens to the inbox between two attempts is arbitrary, but for its policy.
  pub push_holding_block-Settled :
      (policy : OverloadPolicy) (resumed : ℕ → Inbox (Envelope P) → Inbox (Envelope P))
      (e : Envelope P) (q : Inbox (Envelope P)) (letters : List (DeadLetter P))
      → ((n : ℕ) (i : Inbox (Envelope P)) → (resumed n i).policy ≡ i.policy)
      → q.policy ≢ drop_old
      → (h : Held P) × (push_holding_block policy resumed e q letters ≡ returns h)
        × Settled policy resumed 10000 e q letters h
  unfolding push_holding_block
  push_holding_block-Settled policy resumed e q letters k n =
      hold-Settled policy resumed block_hold_max_parks e q letters k n
