-- ===== src/Inbox/Wf.antt =====
-- The well-formedness of src/inbox.rs between two operations of the running actor: the slots of
-- the queue carry the offsets from the cursor up to the write head, with no gap.
use trouper.Prelude.{
  ◌∙◌, ◌>>=◌, ℕ, zero, suc, ◌+◌, ◌-◌, ◌≤◌, ◌<◌, ◌≡◌, refl, subst, List, [], ◌∷◌, ◌++◌, Option, none,
  some, arith, length, length-append, drop, add_u64, u64_mod, IfReturns, IfReturns-bind,
  IfReturns-mono,
}
use trouper.Inbox.{
  Inbox, OverloadPolicy, block, drop_new, drop_old, unbounded, push, ack, commit_through, new,
  push_full, evict_front, pop_at, pop_through, queue_next, claim_slots, restore_slot, claim_up_to,
  restore_slots, restore_claims, Run, close, reopen, returns,
}

module _ {ℓ} {E : Type ℓ} where
  abbrev pub Numbered : ℕ → List (ℕ × Option E) → Type 0
  Numbered k [] = Unit {0}
  Numbered k ((o, slot) ∷ rest) = (o ≡ k) × Numbered (suc k) rest

  pub record IsWf (q : Inbox E) : Type 0 where
    pub numbered : Numbered q.cursor q.queue
    pub ends : q.cursor + length q.queue ≡ q.next_offset
    pub fits : q.next_offset < u64_mod
    pub room : 1 ≤ q.capacity

  pub Numbered-snoc :
      (k o : ℕ) (slot : Option E) (slots : List (ℕ × Option E))
      → Numbered k slots
      → o ≡ k + length slots
      → Numbered k (slots ++ (o, slot) ∷ [])
  Numbered-snoc k o slot [] h e = omega arith
  Numbered-snoc k o slot ((i, s) ∷ rest) h e =
      (h.0, Numbered-snoc (suc k) o slot rest h.1 (omega arith))

  pub new-IsWf : (capacity : ℕ) (policy : OverloadPolicy) → IsWf (new {E = E} capacity policy)
  unfolding new
  new-IsWf capacity policy = omega arith

  queue_next-IsWf :
      (e : E) (q : Inbox E) → IsWf q → q.next_offset + 1 < u64_mod → IsWf (queue_next e q)
  unfolding queue_next
  queue_next-IsWf e q w n = record {
    numbered = Numbered-snoc q.cursor q.next_offset (some e) q.queue w.numbered (omega arith);
    ends = omega (arith, length-append q.queue ((q.next_offset, some e) ∷ []));
    fits = omega arith;
    room = w.room;
  }

  evict_front-IsWf :
      (e : E) (q : Inbox E) (slots : List (ℕ × Option E))
      → q.queue ≡ slots
      → IsWf q
      → q.next_offset + 1 < u64_mod
      → IfReturns (λ r. IsWf r.0) (evict_front e q slots)
  unfolding evict_front
  evict_front-IsWf e q [] s w n = queue_next-IsWf e q w n
  evict_front-IsWf e q ((o, none) ∷ rest) s w n = tt
  evict_front-IsWf e q ((o, some old) ∷ rest) s w n =
      queue_next-IsWf e (record q { queue = rest; cursor = add_u64 q.cursor 1 }) popped n
    where
      slots : Numbered q.cursor ((o, some old) ∷ rest)
      slots = subst (Numbered q.cursor) s w.numbered

      longer : q.cursor + suc (length rest) ≡ q.next_offset
      longer = subst (λ (l : List (ℕ × Option E)). q.cursor + length l ≡ q.next_offset) s w.ends

      popped : IsWf (record q { queue = rest; cursor = add_u64 q.cursor 1 })
      popped = record {
        numbered = subst (λ k. Numbered k rest) (omega (arith, longer)) slots.1;
        ends = omega (arith, longer);
        fits = w.fits;
        room = w.room;
      }

  push_full-IsWf :
      (p : OverloadPolicy) (e : E) (q : Inbox E)
      → IsWf q
      → q.next_offset + 1 < u64_mod
      → IfReturns (λ r. IsWf r.0) (push_full p e q)
  unfolding push_full
  push_full-IsWf block e q w n = w
  push_full-IsWf drop_new e q w n = w
  push_full-IsWf drop_old e q w n = evict_front-IsWf e q q.queue refl w n
  push_full-IsWf unbounded e q w n = tt

  push-IsWf :
      (e : E) (q : Inbox E)
      → IsWf q
      → q.next_offset + 1 < u64_mod
      → IfReturns (λ r. IsWf r.0) (push e q)
  unfolding push
  push-IsWf e q w n = ground (arith, queue_next-IsWf e q w n, push_full-IsWf q.policy e q w n)

  pop_at-Numbered :
      (k : ℕ) (slots : List (ℕ × Option E))
      → Numbered k slots
      → Numbered (suc k) (pop_at k slots) × (length (pop_at k slots) ≡ length slots - 1)
  unfolding pop_at
  pop_at-Numbered k [] h = (tt, omega arith)
  pop_at-Numbered k ((o, slot) ∷ rest) h = ground arith

  ack-IsWf : (q : Inbox E) → IsWf q → IfReturns (λ r. IsWf r.0) (ack q)
  unfolding ack
  ack-IsWf q w = ground (arith, pop_at-Numbered q.cursor q.queue w.numbered)

  -- On numbered slots the loop of a commit drops a prefix.
  pub pop_through-eq-drop :
      (k offset j : ℕ) (slots : List (ℕ × Option E))
      → offset + 1 - k ≡ j
      → Numbered k slots
      → pop_through offset slots ≡ drop j slots
  unfolding pop_through
  pop_through-eq-drop k offset zero [] e h = refl
  pop_through-eq-drop k offset (suc j) [] e h = refl
  pop_through-eq-drop k offset zero ((o, slot) ∷ rest) e h = ground arith
  pop_through-eq-drop k offset (suc j) ((o, slot) ∷ rest) e h =
      ground (arith, pop_through-eq-drop (suc k) offset j rest (omega arith) h.1)

  Numbered-drop :
      (k j : ℕ) (slots : List (ℕ × Option E))
      → Numbered k slots
      → Numbered (k + j) (drop j slots) × (length (drop j slots) ≡ length slots - j)
  Numbered-drop k zero slots h = (subst (λ i. Numbered i slots) (omega arith) h, omega arith)
  Numbered-drop k (suc j) [] h = (tt, omega arith)
  Numbered-drop k (suc j) ((o, slot) ∷ rest) h =
      let r = Numbered-drop (suc k) j rest h.1 in
      (subst (λ i. Numbered i (drop j rest)) (omega arith) r.0, omega (arith, r.1))

  commit_through-IsWf :
      (offset : ℕ) (q : Inbox E)
      → IsWf q
      → q.cursor ≤ offset
      → IfReturns (λ r. IsWf r.0) (commit_through offset q)
  unfolding commit_through
  commit_through-IsWf offset q w h = ground (
    arith,
    pop_through-eq-drop q.cursor offset (offset + 1 - q.cursor) q.queue refl w.numbered,
    Numbered-drop q.cursor (offset + 1 - q.cursor) q.queue w.numbered,
  )

  abbrev KeepsOffsets : ℕ → List (ℕ × Option E) → List (ℕ × Option E) → Type 0
  KeepsOffsets k slots slots' = Numbered k slots' × (length slots' ≡ length slots)

  claim_slots-KeepsOffsets :
      (n cursor claimed k : ℕ) (slots : List (ℕ × Option E))
      → Numbered k slots
      → IfReturns (λ r. KeepsOffsets k slots r.0) (claim_slots n cursor claimed slots)
  unfolding claim_slots
  claim_slots-KeepsOffsets n cursor claimed k [] h = (tt, omega arith)
  claim_slots-KeepsOffsets n cursor claimed k ((o, none) ∷ rest) h =
      ground (arith, claim_slots-KeepsOffsets n cursor claimed (suc k) rest h.1)
  claim_slots-KeepsOffsets n cursor claimed k ((o, some e) ∷ rest) h = ground (
    arith,
    claim_slots-KeepsOffsets n cursor claimed (suc k) rest h.1,
    claim_slots-KeepsOffsets n cursor (claimed + 1) (suc k) rest h.1,
  )

  restore_slot-KeepsOffsets :
      (cursor o k : ℕ) (e : E) (slots : List (ℕ × Option E))
      → Numbered k slots
      → IfReturns (KeepsOffsets k slots) (restore_slot cursor o e slots)
  unfolding restore_slot
  restore_slot-KeepsOffsets cursor o k e [] h = tt
  restore_slot-KeepsOffsets cursor o k e ((i, none) ∷ rest) h =
      ground (arith, restore_slot-KeepsOffsets cursor o (suc k) e rest h.1)
  restore_slot-KeepsOffsets cursor o k e ((i, some e') ∷ rest) h =
      ground (arith, restore_slot-KeepsOffsets cursor o (suc k) e rest h.1)

  claim_up_to-IsWf : (n : ℕ) (q : Inbox E) → IsWf q → IfReturns (λ r. IsWf r.0) (claim_up_to n q)
  unfolding claim_up_to
  claim_up_to-IsWf n q w =
      IfReturns-bind (λ r. KeepsOffsets q.cursor q.queue r.0) _ (claim_slots n q.cursor 0 q.queue) _
        (claim_slots-KeepsOffsets n q.cursor 0 q.cursor q.queue w.numbered)
        λ r keeps. record { numbered = keeps.0; ends = omega arith; fits = w.fits; room = w.room }

  restore_slots-KeepsOffsets :
      (cursor k : ℕ) (batch : List (ℕ × E)) (slots : List (ℕ × Option E))
      → Numbered k slots
      → IfReturns (KeepsOffsets k slots) (restore_slots cursor batch slots)
  unfolding restore_slots
  restore_slots-KeepsOffsets cursor k [] slots h = (h, refl)
  restore_slots-KeepsOffsets cursor k ((o, e) ∷ batch) slots h =
      IfReturns-bind (KeepsOffsets k slots) _ (restore_slot cursor o e slots) _
        (restore_slot-KeepsOffsets cursor o k e slots h)
        λ slots' keeps.
          IfReturns-mono _ (restore_slots cursor batch slots')
            (restore_slots-KeepsOffsets cursor k batch slots' keeps.0)
            λ r kept. (kept.0, kept.1 ∙ keeps.1)

  restore_claims-IsWf :
      (batch : List (ℕ × E)) (q : Inbox E)
      → IsWf q
      → IfReturns (λ r. IsWf r.0) (restore_claims batch q)
  unfolding restore_claims
  restore_claims-IsWf batch q w =
      IfReturns-bind (KeepsOffsets q.cursor q.queue) _ (restore_slots q.cursor batch q.queue) _
        (restore_slots-KeepsOffsets q.cursor q.cursor batch q.queue w.numbered)
        λ r keeps. record { numbered = keeps.0; ends = omega arith; fits = w.fits; room = w.room }

-- One call that the runtime makes on the inbox of a running actor.
pub data Call {ℓ} (E : Type ℓ) : Type ℓ where
  pushes : E → Call E
  acks closes reopens : Call E
  claims : ℕ → Call E
  restores : List (ℕ × E) → Call E
  commits : ℕ → Call E

module _ {ℓ} {E : Type ℓ} where
  -- The inbox after the call, unless it panics.
  unfoldable pub call : Call E → Inbox E → Run (Inbox E)
  call (pushes e) q = push e q >>= λ r. returns r.0
  call acks q = ack q >>= λ r. returns r.0
  call closes q = returns (close q)
  call reopens q = returns (reopen q)
  call (claims n) q = claim_up_to n q >>= λ r. returns r.0
  call (restores batch) q = restore_claims batch q >>= λ r. returns r.0
  call (commits offset) q = commit_through offset q >>= λ r. returns r.0

  -- What a call may rely on: the offsets of a 64-bit counter are not used up, and a commit never
  -- rewinds.
  abbrev pub Admits : Inbox E → Call E → Type 0
  Admits q (pushes e) = q.next_offset + 1 < u64_mod
  Admits q (commits offset) = q.cursor ≤ offset
  Admits q _ = Unit

  -- A push under any policy below the last offset, a commit at or behind the cursor, an ack, a claim, a
  -- restore, a close and a reopen, each if it returns, keep the queue numbered from the cursor up to the
  -- write head. The drain of a teardown, which ends the inbox, does not.
  pub call-IsWf : (c : Call E) (q : Inbox E) → IsWf q → Admits q c → IfReturns IsWf (call c q)
  unfolding call close reopen
  call-IsWf (pushes e) q w a =
      IfReturns-bind (λ r. IsWf r.0) (IsWf {E = E}) (push e q) _ (push-IsWf e q w a) (λ r h. h)
  call-IsWf acks q w a =
      IfReturns-bind (λ r. IsWf r.0) (IsWf {E = E}) (ack q) _ (ack-IsWf q w) (λ r h. h)
  call-IsWf closes q w a = record {
    numbered = w.numbered;
    ends = w.ends;
    fits = w.fits;
    room = w.room;
  }
  call-IsWf reopens q w a = record {
    numbered = w.numbered;
    ends = w.ends;
    fits = w.fits;
    room = w.room;
  }
  call-IsWf (claims n) q w a =
      IfReturns-bind (λ r. IsWf r.0) (IsWf {E = E}) (claim_up_to n q) _ (claim_up_to-IsWf n q w)
        (λ r h. h)
  call-IsWf (restores batch) q w a =
      IfReturns-bind (λ r. IsWf r.0) (IsWf {E = E}) (restore_claims batch q) _
        (restore_claims-IsWf batch q w) (λ r h. h)
  call-IsWf (commits offset) q w a =
      IfReturns-bind (λ r. IsWf r.0) (IsWf {E = E}) (commit_through offset q) _
        (commit_through-IsWf offset q w a) (λ r h. h)
