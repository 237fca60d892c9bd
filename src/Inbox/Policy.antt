-- ===== src/Inbox/Policy.antt =====
-- What a push of src/inbox.rs does under each overload policy.
use trouper.Prelude.{
  ◌⊎◌, inl, inr, panics, returns, Bool-cases, returned, IfReturns-if, leb→le, refl, not, ℕ, ◌+◌,
  ◌≤◌, ◌<◌, ◌≡◌, refl, ap, ◌≢◌, true, false, Option, none, some, List, [], ◌∷◌, ◌++◌, arith,
  u64_mod, length, length-append, IfReturns,
}
use trouper.Inbox.{
  OverloadPolicy, block, drop_new, drop_old, unbounded, full, evicted, closed, Pushed, ok, err,
  Inbox, queue_next, enqueue, evict_front, push_full, push, is_unbounded, leb,
}
use trouper.Inbox.Wf.{IsWf}

module _ {ℓ} {E : Type ℓ} where
  -- The live envelopes of the queue, oldest first.
  abbrev pub live : List (ℕ × Option E) → List E
  live [] = []
  live ((o, none) ∷ rest) = live rest
  live ((o, some e) ∷ rest) = e ∷ live rest

  pub live-append : (xs ys : List (ℕ × Option E)) → live (xs ++ ys) ≡ live xs ++ live ys
  live-append [] ys = refl
  live-append ((o, none) ∷ rest) ys = live-append rest ys
  live-append ((o, some e) ∷ rest) ys = ap (◌∷◌ e) (live-append rest ys)

  -- What the answer to `push e` says about the inbox before and after it.
  abbrev pub Answers : E → Inbox E → Inbox E × Pushed E → Type ℓ
  Answers e q (q', ok o) =
      (q.opened ≡ true) × (o ≡ q.next_offset) × (live q'.queue ≡ live q.queue ++ e ∷ [])
  Answers e q (q', err (full e')) =
      (e' ≡ e) × (q' ≡ q) × (q.capacity ≤ length q.queue) × (q.policy ≢ unbounded)
  Answers e q (q', err (evicted old)) =
      (old ∷ live q'.queue ≡ live q.queue ++ e ∷ [])
      × (q.policy ≡ drop_old)
      × (length q'.queue ≡ length q.queue)
      × (q'.cursor ≡ q.cursor + 1)
  Answers e q (q', err (closed e')) = (e' ≡ e) × (q' ≡ q) × (q.opened ≡ false)

  enqueue-Answers :
      (e : E) (q : Inbox E)
      → q.opened ≡ true
      → q.next_offset + 1 < u64_mod
      → IfReturns (Answers e q) (enqueue e q)
  unfolding queue_next
  enqueue-Answers e q o n = (o, omega arith, live-append q.queue ((q.next_offset, some e) ∷ []))

  evict_front-Answers :
      (e : E) (q : Inbox E) (slots : List (ℕ × Option E))
      → q.queue ≡ slots
      → q.opened ≡ true
      → IsWf q
      → q.next_offset + 1 < u64_mod
      → q.policy ≡ drop_old
      → IfReturns (Answers e q) (evict_front e q slots)
  unfolding evict_front
  evict_front-Answers e q [] s o w n p = enqueue-Answers e q o n
  evict_front-Answers e q ((i, none) ∷ rest) s o w n p = tt
  evict_front-Answers e q ((i, some old) ∷ rest) s o w n p = (
    rw s (ap (◌∷◌ old) (live-append rest ((q.next_offset, some e) ∷ []))),
    p,
    omega (arith, ap length s, length-append rest ((q.next_offset, some e) ∷ [])),
    omega arith,
  )

  push_full-Answers :
      (p : OverloadPolicy) (e : E) (q : Inbox E)
      → q.policy ≡ p
      → q.opened ≡ true
      → q.capacity ≤ length q.queue
      → IsWf q
      → q.next_offset + 1 < u64_mod
      → IfReturns (Answers e q) (push_full p e q)
  unfolding push_full
  push_full-Answers block e q p o c w n = (refl, refl, c, λ u. cc)
  push_full-Answers drop_new e q p o c w n = (refl, refl, c, λ u. cc)
  push_full-Answers drop_old e q p o c w n = evict_front-Answers e q q.queue refl o w n p
  push_full-Answers unbounded e q p o c w n = tt

  push-IfReturns :
      (e : E) (q : Inbox E)
      → IsWf q
      → q.next_offset + 1 < u64_mod
      → IfReturns (Answers e q) (push e q)
  unfolding push
  push-IfReturns e q w n =
      IfReturns-if (Answers e q) (not q.opened) _ _ (λ c. (refl, refl, ground arith))
        λ c.
          let o : q.opened ≡ true = ground arith in
          IfReturns-if (Answers e q) (is_unbounded q.policy) _ _ (λ _. enqueue-Answers e q o n)
            λ _.
              IfReturns-if (Answers e q) (leb q.capacity (length q.queue)) _ _
                (λ f. push_full-Answers q.policy e q refl o (leb→le _ _ f) w n)
                (λ _. enqueue-Answers e q o n)

module _ {E : Type 0} where
  -- No eviction, or the oldest slot is not claimed by a running step.
  abbrev pub FrontIsLive : List (ℕ × Option E) → Type 0
  FrontIsLive [] = Unit
  FrontIsLive ((o, none) ∷ rest) = ⊥
  FrontIsLive ((o, some e) ∷ rest) = Unit

  evict_front-not_panics :
      (e : E) (q : Inbox E) (slots : List (ℕ × Option E))
      → FrontIsLive slots
      → evict_front e q slots ≢ panics
  unfolding evict_front
  evict_front-not_panics e q [] f h = cc
  evict_front-not_panics e q ((o, none) ∷ rest) f h = f
  evict_front-not_panics e q ((o, some old) ∷ rest) f h = cc

  push_full-not_panics :
      (p : OverloadPolicy) (e : E) (q : Inbox E)
      → is_unbounded p ≡ false
      → (p ≢ drop_old) ⊎ FrontIsLive q.queue
      → push_full p e q ≢ panics
  unfolding push_full
  push_full-not_panics block e q u f h = cc
  push_full-not_panics drop_new e q u f h = cc
  push_full-not_panics drop_old e q u (inl n) h = n refl
  push_full-not_panics drop_old e q u (inr f) h = evict_front-not_panics e q q.queue f h
  push_full-not_panics unbounded e q u f h = cc

  push-not_panics :
      (e : E) (q : Inbox E) → (q.policy ≢ drop_old) ⊎ FrontIsLive q.queue → push e q ≢ panics
  unfolding push
  push-not_panics e q f = elim (Bool-cases (not q.opened)) [
    | inl o ↦ rw (o, push) (λ h. cc)
    | inr o ↦ elim (Bool-cases (is_unbounded q.policy)) [
      | inl u ↦ rw (o, u, push) (λ h. cc)
      | inr u ↦ elim (Bool-cases (leb q.capacity (length q.queue))) [
        | inl c ↦ rw (o, u, c, push) (push_full-not_panics q.policy e q u f)
        | inr c ↦ rw (o, u, c, push) (λ h. cc)
      ]
    ]
  ]

  pub push-Answers :
      (e : E) (q : Inbox E)
      → IsWf q
      → q.next_offset + 1 < u64_mod
      → (q.policy ≢ drop_old) ⊎ FrontIsLive q.queue
      → (r : Inbox E × Pushed E) × (push e q ≡ returns r) × Answers e q r
  push-Answers e q w n f =
      returned (Answers e q) (push e q) (push-not_panics e q f) (push-IfReturns e q w n)
