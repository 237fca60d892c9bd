-- ===== src/Reply/Waiting.antt =====
-- A lease of src/reply.rs that waits for its reply.
use trouper.Prelude.{
  ℕ, ◌≡◌, refl, inl, inr, Bool, true, false, not, ◌&&◌, List, [], ◌∷◌, ◌++◌, arith, ltb, ◌==◌,
  if◌then◌else◌, Bool-cases, add_u64, retain, any, All, any-append, any-snoc,
}
use trouper.Reply.{
  ReplySlot, ReplyTable, has_lease, remove, holds, open_lease, complete, cancel, prune_slots, Op,
  opens, completes, cancels, prunes, run_op, run_ops,
}

-- The slot of a lease with this expiry.
abbrev is_until : ℕ → ℕ → ReplySlot → Bool
is_until lease expires_at s = has_lease lease s && s.expires_at == expires_at

remove-IsLiveUntil :
    (lease l expires_at : ℕ) (slots : List ReplySlot)
    → (l == lease) ≡ false
    → any (is_until lease expires_at) slots ≡ true
    → any (is_until lease expires_at) (retain (λ s. not (has_lease l s)) slots) ≡ true
remove-IsLiveUntil lease l expires_at [] e h = h
remove-IsLiveUntil lease l expires_at (s ∷ slots) e h =
    ground (arith, remove-IsLiveUntil lease l expires_at slots e)

prune_slots-IsLiveUntil :
    (lease now expires_at : ℕ) (slots : List ReplySlot)
    → ltb now expires_at ≡ true
    → any (is_until lease expires_at) slots ≡ true
    → any (is_until lease expires_at) (retain (λ (s : ReplySlot). ltb now s.expires_at) slots)
      ≡ true
prune_slots-IsLiveUntil lease now expires_at [] e h = h
prune_slots-IsLiveUntil lease now expires_at (s ∷ slots) e h =
    ground (arith, prune_slots-IsLiveUntil lease now expires_at slots e)

any-weaken :
    (lease expires_at : ℕ) (slots : List ReplySlot)
    → any (is_until lease expires_at) slots ≡ true
    → any (has_lease lease) slots ≡ true
any-weaken lease x [] h = h
any-weaken lease x (s ∷ slots) h = ground (arith, any-weaken lease x slots)

module _ {P : Type 0} where
  -- An operation that leaves a lease alone: it is about another one, or prunes before the expiry.
  abbrev pub spares : ℕ → ℕ → Op P → Bool
  spares lease expires_at (opens l ttl now) = not (l == lease)
  spares lease expires_at (completes l payload) = not (l == lease)
  spares lease expires_at (cancels l) = not (l == lease)
  spares lease expires_at (prunes now) = ltb now expires_at

  run_op-IsLiveUntil :
      (alive : ℕ → Bool) (lease expires_at : ℕ) (op : Op P) (t : ReplyTable P)
      → spares lease expires_at op ≡ true
      → any (is_until lease expires_at) t.slots ≡ true
      → any (is_until lease expires_at) (run_op alive op t).slots ≡ true
  unfolding run_op open_lease complete cancel prune_slots remove holds
  run_op-IsLiveUntil alive lease x (opens l ttl now) t s h =
      any-append (is_until lease x) (retain (λ s. not (has_lease l s)) t.slots)
        (record { lease = l; expires_at = add_u64 now ttl } ∷ [])
        (remove-IsLiveUntil lease l x t.slots (ground (arith, s)) h)
  run_op-IsLiveUntil alive lease x (completes l payload) t s h =
      let r = remove-IsLiveUntil lease l x t.slots (ground (arith, s)) h in
      elim (Bool-cases (holds l t)) [
        | inr k ↦ rw (run_op, complete, k) h
        | inl k ↦ elim (Bool-cases (alive l)) [
          | inl g ↦ rw (run_op, complete, k, g) r
          | inr g ↦ rw (run_op, complete, k, g) r
        ]
      ]
  run_op-IsLiveUntil alive lease x (cancels l) t s h =
      remove-IsLiveUntil lease l x t.slots (ground (arith, s)) h
  run_op-IsLiveUntil alive lease x (prunes now) t s h =
      prune_slots-IsLiveUntil lease now x t.slots s h

  until-holds :
      (lease expires_at : ℕ) (t : ReplyTable P)
      → any (is_until lease expires_at) t.slots ≡ true
      → holds lease t ≡ true
  unfolding holds
  until-holds lease x t h = any-weaken lease x t.slots h

  run_ops-IsLiveUntil :
      (alive : ℕ → Bool) (lease expires_at : ℕ) (ops : List (Op P)) (t : ReplyTable P)
      → All (λ op. spares lease expires_at op ≡ true) ops
      → any (is_until lease expires_at) t.slots ≡ true
      → any (is_until lease expires_at) (run_ops alive ops t).slots ≡ true
  unfolding run_ops
  run_ops-IsLiveUntil alive lease x [] t s h = h
  run_ops-IsLiveUntil alive lease x (op ∷ ops) t s h =
      run_ops-IsLiveUntil alive lease x ops (run_op alive op t) s.1
        (run_op-IsLiveUntil alive lease x op t s.0 h)

  open_lease-IsLiveUntil :
      (lease ttl now : ℕ) (t : ReplyTable P)
      → any (is_until lease (add_u64 now ttl)) (open_lease lease ttl now t).slots ≡ true
  unfolding open_lease
  open_lease-IsLiveUntil lease ttl now t =
      any-snoc (is_until lease (add_u64 now ttl)) (remove lease t).slots
        (record { lease = lease; expires_at = add_u64 now ttl }) (ground arith)

  -- A reply reaches its asker: once a lease is open, and after any operations on other leases and any
  -- pruning before its expiry, completing it answers whether the asker still waits, and sends the payload
  -- if so.
  pub open_lease-complete :
      (alive : ℕ → Bool) (lease ttl now : ℕ) (payload : P) (ops : List (Op P)) (t : ReplyTable P)
      → All (λ op. spares lease (add_u64 now ttl) op ≡ true) ops
      → let t' = run_ops alive ops (open_lease lease ttl now t) in
        ((complete alive lease payload t').1 ≡ alive lease)
        × ((complete alive lease payload t').0.sent
            ≡ (if alive lease then t'.sent ++ (lease, payload) ∷ [] else t'.sent))
  unfolding complete
  open_lease-complete alive lease ttl now payload ops t s =
      let t' = run_ops alive ops (open_lease lease ttl now t) in
      let h = until-holds lease (add_u64 now ttl) t' (
        run_ops-IsLiveUntil alive lease (add_u64 now ttl) ops (open_lease lease ttl now t) s
          (open_lease-IsLiveUntil lease ttl now t)) in
      elim (Bool-cases (alive lease)) [
        | inl g ↦ rw (complete, h, g) (refl, refl)
        | inr g ↦ rw (complete, h, g) (refl, refl)
      ]
