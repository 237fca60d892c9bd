-- ===== src/Reply/Leases.antt =====
-- How often a lease of src/reply.rs is answered.
use trouper.Prelude.{
  ℕ, ◌+◌, ◌≤◌, ◌≡◌, subst, inl, inr, Bool, true, false, not, List, [], ◌∷◌, ◌++◌, arith, ltb, ◌==◌,
  if◌then◌else◌, ==_iff, Bool-cases, add_u64, retain, any,
}
use trouper.Reply.{
  ReplySlot, ReplyTable, has_lease, no_slots, remove, holds, open_lease, complete, cancel,
  prune_slots, Op, opens, completes, cancels, prunes, run_op, run_ops,
}

-- How often something holds in a list.
abbrev pub times {ℓ} : {A : Type ℓ} → (A → Bool) → List A → ℕ
times p [] = 0
times p (x ∷ xs) = (if p x then 1 else 0) + times p xs

times-append {ℓ} :
    {A : Type ℓ} (p : A → Bool) (xs ys : List A) → times p (xs ++ ys) ≡ times p xs + times p ys
times-append p [] ys = omega arith
times-append p (x ∷ xs) ys = ground (arith, times-append p xs ys)

times-retain-le {ℓ} :
    {A : Type ℓ} (p q : A → Bool) (xs : List A) → times p (retain q xs) ≤ times p xs
times-retain-le p q [] = omega arith
times-retain-le p q (x ∷ xs) = ground (arith, times-retain-le p q xs)

times-retain_others {ℓ} :
    {A : Type ℓ} (p : A → Bool) (xs : List A) → times p (retain (λ x. not (p x)) xs) ≡ 0
times-retain_others p [] = omega arith
times-retain_others p (x ∷ xs) = ground (arith, times-retain_others p xs)

any-times {ℓ} : {A : Type ℓ} (p : A → Bool) (xs : List A) → any p xs ≡ true → 1 ≤ times p xs
any-times p [] h = ground (arith, h)
any-times p (x ∷ xs) h = ground (arith, any-times p xs)

module _ {P : Type 0} where
  abbrev pub is_opening : ℕ → Op P → Bool
  is_opening lease (opens l ttl now) = l == lease
  is_opening lease (completes l payload) = false
  is_opening lease (cancels l) = false
  is_opening lease (prunes now) = false

  abbrev pub replies : ℕ → ReplyTable P → ℕ
  replies lease t = times (λ (m : ℕ × P). m.0 == lease) t.sent

  -- The replies, and one more where the slot is live.
  abbrev balance : ℕ → ReplyTable P → ℕ
  balance lease t = replies lease t + times (has_lease lease) t.slots

  balance-remove :
      (lease l : ℕ) (t : ReplyTable P)
      → times (has_lease lease) (remove l t).slots ≤ times (has_lease lease) t.slots
  unfolding remove
  balance-remove lease l t = times-retain-le (has_lease lease) (λ s. not (has_lease l s)) t.slots

  times-remove_self :
      (lease l : ℕ) (t : ReplyTable P)
      → (l == lease) ≡ true
      → times (has_lease lease) (remove l t).slots ≡ 0
  unfolding remove
  times-remove_self lease l t e =
      subst (λ x. times (has_lease x) (retain (λ s. not (has_lease l s)) t.slots) ≡ 0)
        ((==_iff l lease).0 e) (times-retain_others (has_lease l) t.slots)

  holds-times :
      (lease l : ℕ) (t : ReplyTable P)
      → (l == lease) ≡ true
      → holds l t ≡ true
      → 1 ≤ times (has_lease lease) t.slots
  unfolding holds
  holds-times lease l t e h =
      subst (λ x. 1 ≤ times (has_lease x) t.slots) ((==_iff l lease).0 e)
        (any-times (has_lease l) t.slots h)

  balance-complete :
      (alive : ℕ → Bool) (lease l : ℕ) (payload : P) (t : ReplyTable P)
      → balance lease (complete alive l payload t).0 ≤ balance lease t
  unfolding complete remove holds
  balance-complete alive lease l payload t = elim (Bool-cases (holds l t)) [
    | inr h ↦ rw (complete, h) (omega arith)
    | inl h ↦ elim (Bool-cases (alive l)) [
      | inr g ↦ rw (complete, h, g) (omega (arith, balance-remove lease l t))
      | inl g ↦
          rw (complete, h, g)
            (ground (
              arith,
              times-append (λ (m : ℕ × P). m.0 == lease) t.sent ((l, payload) ∷ []),
              times-remove_self lease l t,
              holds-times lease l t,
              balance-remove lease l t,
              h,
            ))
    ]
  ]

  balance-run_op :
      (alive : ℕ → Bool) (lease : ℕ) (op : Op P) (t : ReplyTable P)
      → balance lease (run_op alive op t) ≤ balance lease t + (if is_opening lease op then 1 else 0)
  unfolding run_op open_lease cancel prune_slots
  balance-run_op alive lease (opens l ttl now) t =
      let slot : ReplySlot = record { lease = l; expires_at = add_u64 now ttl } in
      ground (
        arith,
        times-append (has_lease lease) (remove l t).slots (slot ∷ []),
        times-remove_self lease l t,
        balance-remove lease l t,
      )
  balance-run_op alive lease (completes l payload) t =
      omega (arith, balance-complete alive lease l payload t)
  balance-run_op alive lease (cancels l) t = omega (arith, balance-remove lease l t)
  balance-run_op alive lease (prunes now) t =
      omega (arith, times-retain-le (has_lease lease) (λ s. ltb now s.expires_at) t.slots)

  balance-run_ops :
      (alive : ℕ → Bool) (lease : ℕ) (ops : List (Op P)) (t : ReplyTable P)
      → balance lease (run_ops alive ops t) ≤ balance lease t + times (is_opening lease) ops
  unfolding run_ops
  balance-run_ops alive lease [] t = omega arith
  balance-run_ops alive lease (op ∷ ops) t =
      omega (
        arith,
        balance-run_ops alive lease ops (run_op alive op t),
        balance-run_op alive lease op t,
      )

  -- Whatever is done to the table, a lease never has more replies than openings: a lease that is opened
  -- once is answered at most once.
  pub replies-le_openings :
      (alive : ℕ → Bool) (lease : ℕ) (ops : List (Op P))
      → replies lease (run_ops alive ops no_slots) ≤ times (is_opening lease) ops
  replies-le_openings alive lease ops = omega (arith, balance-run_ops alive lease ops no_slots)
