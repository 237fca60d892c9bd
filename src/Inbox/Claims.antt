-- ===== src/Inbox/Claims.antt =====
-- Claims of src/inbox.rs: a step takes a batch out of its slots, and gives back what it did not
-- commit.
use trouper.Prelude.{
  panics, true, not, ◌≢◌, sym, ◌∙◌, append-nil, append_assoc, length-append, ℕ, zero, suc, ◌+◌, ◌≤◌,
  ◌<◌, min, ◌≡◌, refl, sym, ap, ◌∙◌, Option, none, some, List, [], ◌∷◌, ◌++◌, append_assoc,
  append-nil, arith, u64_mod, length, length-append, returns, ◌>>=◌,
}
use trouper.Inbox.{
  evict_front, is_empty_list, drop_old, queue_next, push_full, restore_claims, restore_slots,
  restore_slot, Inbox, claim_slots, claim_up_to, restore_slot, restore_slots, restore_claims, push,
}

module _ {ℓ} {E : Type ℓ} where
  -- Live slots from offset `k` on.
  abbrev pub numbered : ℕ → List E → List (ℕ × Option E)
  numbered k [] = []
  numbered k (e ∷ es) = (k, some e) ∷ numbered (suc k) es

  -- The same slots with the first `m` claimed.
  abbrev pub claimed_view : ℕ → ℕ → List E → List (ℕ × Option E)
  claimed_view zero k es = numbered k es
  claimed_view (suc m) k [] = []
  claimed_view (suc m) k (e ∷ es) = (k, none) ∷ claimed_view m (suc k) es

  -- The batch that a claim of `m` hands out.
  abbrev pub batch_of : ℕ → ℕ → List E → List (ℕ × E)
  batch_of zero k es = []
  batch_of (suc m) k [] = []
  batch_of (suc m) k (e ∷ es) = (k, e) ∷ batch_of m (suc k) es

  -- The inbox holds `es`, all live: no step is under way.
  pub record IsSettled (q : Inbox E) (es : List E) : Type ℓ where
    pub holds : q.queue ≡ numbered q.cursor es
    pub ends : q.cursor + length es ≡ q.next_offset
    pub fits : q.next_offset + 1 < u64_mod

  claim_slots-numbered :
      (n cursor claimed m k : ℕ) (es : List E)
      → claimed + m ≡ n
      → cursor + claimed ≡ k
      → k + length es < u64_mod
      → claim_slots n cursor claimed (numbered k es)
        ≡ returns (claimed_view m k es, batch_of m k es, claimed + min m (length es))
  unfolding claim_slots
  claim_slots-numbered n cursor claimed zero k [] h c f = ground arith
  claim_slots-numbered n cursor claimed (suc m) k [] h c f = ground arith
  claim_slots-numbered n cursor claimed zero k (e ∷ es) h c f = ground arith
  claim_slots-numbered n cursor claimed (suc m) k (e ∷ es) h c f = ground (
    arith,
    claim_slots-numbered n cursor (claimed + 1) m (suc k) es (omega arith) (omega arith)
        (omega arith),
  )

  -- A claim takes the oldest envelopes, as many as asked or as there are, with consecutive offsets
  -- from the cursor, and moves nothing else: neither the cursor nor the write head, and no slot.
  pub claim_up_to-IsSettled :
      (n : ℕ) (q : Inbox E) (es : List E)
      → IsSettled q es
      → claim_up_to n q
        ≡ returns (
          record q { queue = claimed_view n q.cursor es },
          batch_of n q.cursor es,
          min n (length es),
        )
  unfolding claim_up_to
  claim_up_to-IsSettled n q es s = ground (
    arith,
    claim_slots-numbered n q.cursor 0 n q.cursor es (omega arith) (omega arith) (omega arith),
  )

  pub numbered-append :
      (k : ℕ) (ps es : List E)
      → numbered k (ps ++ es) ≡ numbered k ps ++ numbered (k + length ps) es
  numbered-append k [] es = ap (λ i. numbered i es) (omega arith)
  numbered-append k (p ∷ ps) es =
      ap (◌∷◌ (k, some p)) (
        numbered-append (suc k) ps es
        ∙ ap (λ i. numbered (suc k) ps ++ numbered i es) (omega arith))

  -- Restoring the first claim behind a restored prefix.
  restore_slot-claimed :
      (cursor k o : ℕ) (e : E) (ps : List E) (rest : List (ℕ × Option E))
      → k + length ps ≡ o
      → cursor ≤ o
      → restore_slot cursor o e (numbered k ps ++ (o, none) ∷ rest)
        ≡ returns (numbered k ps ++ (o, some e) ∷ rest)
  unfolding restore_slot
  restore_slot-claimed cursor k o e [] rest h c = ground arith
  restore_slot-claimed cursor k o e (p ∷ ps) rest h c =
      ground (arith, restore_slot-claimed cursor (suc k) o e ps rest (omega arith) c)

  numbered-snoc :
      (k o : ℕ) (e : E) (ps : List E) (rest : List (ℕ × Option E))
      → k + length ps ≡ o
      → numbered k (ps ++ e ∷ []) ++ rest ≡ numbered k ps ++ (o, some e) ∷ rest
  numbered-snoc k o e [] rest h = ap (λ i. (i, some e) ∷ rest) (omega arith)
  numbered-snoc k o e (p ∷ ps) rest h =
      ap (◌∷◌ (k, some p)) (numbered-snoc (suc k) o e ps rest (omega arith))

  restore_slots-claimed :
      (cursor k o m : ℕ) (ps es : List E) (tail : List (ℕ × Option E))
      → k + length ps ≡ o
      → cursor ≤ o
      → restore_slots cursor (batch_of m o es) (numbered k ps ++ (claimed_view m o es ++ tail))
        ≡ returns (numbered k (ps ++ es) ++ tail)
  unfolding restore_slots
  restore_slots-claimed cursor k o zero ps es tail h c = ap returns (
      sym (append_assoc (numbered k ps) (numbered o es) tail)
      ∙ ap (λ l. l ++ tail)
          (sym (numbered-append k ps es ∙ ap (λ i. numbered k ps ++ numbered i es) h)))
  restore_slots-claimed cursor k o (suc m) ps [] tail h c = simp append-nil
  restore_slots-claimed cursor k o (suc m) ps (e ∷ es) tail h c =
      ap (λ r. r >>= restore_slots cursor (batch_of m (suc o) es))
        (restore_slot-claimed cursor k o e ps (claimed_view m (suc o) es ++ tail) h c)
      ∙ ap (restore_slots cursor (batch_of m (suc o) es)) (sym (numbered-snoc k o e ps _ h))
      ∙ restore_slots-claimed cursor k (suc o) m (ps ++ e ∷ []) es tail
          (omega (arith, length-append ps (e ∷ []))) (omega arith)
      ∙ ap (λ l. returns (numbered k l ++ tail)) (append_assoc ps (e ∷ []) es)

  -- Giving a batch back to an inbox that other pushes have lengthened by `tail`.
  restore_claims-claimed :
      (n k : ℕ) (q : Inbox E) (es : List E) (tail : List (ℕ × Option E))
      → q.cursor ≡ k
      → q.queue ≡ claimed_view n k es ++ tail
      → restore_claims (batch_of n k es) q
        ≡ returns
            (record q { queue = numbered k es ++ tail }, not (is_empty_list (batch_of n k es)))
  unfolding restore_claims
  restore_claims-claimed n k q es tail c h =
      cc (c, h, restore_slots-claimed k k k n [] es tail (omega arith) (omega arith))

  length-claimed_view : (n k : ℕ) (es : List E) → length (claimed_view n k es) ≡ length es
  length-claimed_view zero k [] = refl
  length-claimed_view zero k (e ∷ es) = ap suc (length-claimed_view zero (suc k) es)
  length-claimed_view (suc n) k [] = refl
  length-claimed_view (suc n) k (e ∷ es) = ap suc (length-claimed_view n (suc k) es)

module _ {E : Type 0} where
  push-claimed :
      (n : ℕ) (e : E) (q : Inbox E) (es : List E)
      → IsSettled q es
      → q.policy ≢ drop_old
      → (push e (record q { queue = claimed_view n q.cursor es }) >>= λ p.
          restore_claims (batch_of n q.cursor es) p.0 >>= λ s. returns (s.0, p.1))
        ≡ push e q
  unfolding push queue_next push_full
  push-claimed n e q es s d = ground (
    arith,
    length-claimed_view n q.cursor es,
    length-claimed_view zero q.cursor es,
    append-nil (claimed_view n q.cursor es),
    append-nil (numbered q.cursor es),
    restore_claims-claimed n q.cursor (record q { queue = claimed_view n q.cursor es }) es [],
    restore_claims-claimed n q.cursor
        (queue_next e (record q { queue = claimed_view n q.cursor es })) es
        ((q.next_offset, some e) ∷ []),
  )

  -- A step that claims, sees a concurrent push, and then gives its whole batch back (a crash) leaves
  -- the inbox, and the sender's answer, as if the push had come alone: the order across the crash
  -- is kept. This holds under every policy but `DropOld`.
  pub push-between_claim_restore :
      (n : ℕ) (e : E) (q : Inbox E) (es : List E)
      → IsSettled q es
      → q.policy ≢ drop_old
      → (claim_up_to n q >>= λ r.
          push e r.0 >>= λ p. restore_claims r.1 p.0 >>= λ s. returns (s.0, p.1))
        ≡ push e q
  push-between_claim_restore n e q es s d =
      rw (claim_up_to-IsSettled n q es s) (push-claimed n e q es s d)

  -- Giving a whole batch back undoes the claim.
  pub restore-claim :
      (n : ℕ) (q : Inbox E) (es : List E)
      → IsSettled q es
      → (claim_up_to n q >>= λ r. restore_claims r.1 r.0 >>= λ s. returns s.0) ≡ returns q
  restore-claim n q es s = rw (claim_up_to-IsSettled n q es s) (
      cc (
        restore_claims-claimed n q.cursor (record q { queue = claimed_view n q.cursor es }) es []
            refl (sym (append-nil _)),
        append-nil (numbered q.cursor es),
        s.holds,
      ))

  -- The bug of the `DropOld` arm: while a step holds a claim on a full, open inbox, the next push
  -- pops the claim's tombstone and panics, whatever the envelope.
  push-claimed_panics :
      (n : ℕ) (e first : E) (q : Inbox E) (es : List E)
      → IsSettled q (first ∷ es)
      → 1 ≤ n
      → q.policy ≡ drop_old
      → q.opened ≡ true
      → q.capacity ≤ length q.queue
      → (claim_up_to n q >>= λ r. push e r.0) ≡ panics
  unfolding push push_full evict_front
  push-claimed_panics zero e first q es s one d o full = absurd (omega arith)
  push-claimed_panics (suc n) e first q es s one d o full =
      rw (claim_up_to-IsSettled (suc n) q (first ∷ es) s) (
        ground (
          arith,
          length-claimed_view n (suc q.cursor) es,
          length-claimed_view zero q.cursor (first ∷ es),
        ))
