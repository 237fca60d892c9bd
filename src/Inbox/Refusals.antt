-- ===== src/Inbox/Refusals.antt =====
-- What a push of src/inbox.rs hands back, and when it returns.
use trouper.Prelude.{
  ℕ, ◌≡◌, refl, ◌∙◌, ◌≢◌, ◌⊎◌, inl, inr, true, false, not, Option, none, some, List, [], ◌∷◌, leb,
  Bool-cases, sub_u64, length, returns, IfReturns, IfReturns-if,
}
use mathlib.Core.Bool.{true≢false}
use trouper.Inbox.{
  Refused, Inbox, Pushed, ok, err, full, evicted, closed, push, push_full, evict_front,
  OverloadPolicy, block, drop_new, drop_old, unbounded, is_unbounded, queue_next,
}

module _ {ℓ} {E : Type ℓ} where
  abbrev pub Refuses : E → Pushed E → Type ℓ
  Refuses e (ok o) = Unit {ℓ}
  Refuses e (err (full back)) = back ≡ e
  Refuses e (err (evicted old)) = Unit {ℓ}
  Refuses e (err (closed back)) = back ≡ e

  evict_front-Refuses :
      (e : E) (q : Inbox E) (queue : List (ℕ × Option E))
      → IfReturns (λ r. Refuses e r.1) (evict_front e q queue)
  unfolding evict_front
  evict_front-Refuses e q [] = tt
  evict_front-Refuses e q ((o, none) ∷ rest) = tt
  evict_front-Refuses e q ((o, some old) ∷ rest) = tt

  push_full-Refuses :
      (e : E) (q : Inbox E) (policy : OverloadPolicy)
      → IfReturns (λ r. Refuses e r.1) (push_full policy e q)
  unfolding push_full
  push_full-Refuses e q block = refl
  push_full-Refuses e q drop_new = refl
  push_full-Refuses e q drop_old = evict_front-Refuses e q q.queue
  push_full-Refuses e q unbounded = tt

  pub push-Refuses : (e : E) (q : Inbox E) → IfReturns (λ r. Refuses e r.1) (push e q)
  unfolding push
  push-Refuses e q =
      IfReturns-if _ (not q.opened) _ _ (λ _. refl)
        (λ _.
          IfReturns-if _ (is_unbounded q.policy) _ _ (λ _. tt)
            (λ _.
              IfReturns-if _ (leb q.capacity (length q.queue)) _ _
                (λ _. push_full-Refuses e q q.policy) (λ _. tt)))

  -- What a push that returns answers, with the overload policy as it was.
  abbrev pub Returned : E → Inbox E → Type ℓ
  Returned e q = (r : Inbox E × Pushed E) × (push e q ≡ returns r) × (r.0.policy ≡ q.policy)

  push_full-Returned :
      (e : E) (q : Inbox E) (policy : OverloadPolicy)
      → policy ≢ drop_old
      → is_unbounded policy ≡ false
      → (r : Inbox E × Pushed E) × (push_full policy e q ≡ returns r) × (r.0.policy ≡ q.policy)
  unfolding push_full
  push_full-Returned e q block n u = ((q, err (full e)), refl, refl)
  push_full-Returned e q drop_new n u = ((q, err (full e)), refl, refl)
  push_full-Returned e q drop_old n u = absurd (n refl)
  push_full-Returned e q unbounded n u = absurd (true≢false u)

  push-eq-push_full :
      (e : E) (q : Inbox E)
      → q.opened ≡ true
      → is_unbounded q.policy ≡ false
      → leb q.capacity (length q.queue) ≡ true
      → push e q ≡ push_full q.policy e q
  unfolding push
  push-eq-push_full e q o u l = simp (o, u, l)

  pub Pushed-cases : (a : Pushed E) → ((o : ℕ) × (a ≡ ok o)) ⊎ ((f : Refused E) × (a ≡ err f))
  Pushed-cases (ok o) = inl (o, refl)
  Pushed-cases (err f) = inr (f, refl)

  -- A push under any policy but DropOld returns.
  pub push-Returned : (e : E) (q : Inbox E) → q.policy ≢ drop_old → Returned e q
  unfolding push queue_next
  push-Returned e q n = elim (Bool-cases q.opened) [
    | inr o ↦ ((q, err (closed e)), rw (push, o) refl, refl)
    | inl o ↦ elim (Bool-cases (is_unbounded q.policy)) [
      | inl u ↦ (
        (queue_next e q, ok (sub_u64 (queue_next e q).next_offset 1)),
        rw (push, o, u) refl,
        refl,
      )
      | inr u ↦ elim (Bool-cases (leb q.capacity (length q.queue))) [
        | inr l ↦ (
          (queue_next e q, ok (sub_u64 (queue_next e q).next_offset 1)),
          rw (push, o, u, l) refl,
          refl,
        )
        | inl l ↦
            let (r, h, p) = push_full-Returned e q q.policy n u in
            (r, push-eq-push_full e q o u l ∙ h, p)
      ]
    ]
  ]
