-- ===== src/Inbox/Commits.antt =====
-- Commits of src/inbox.rs: one call is one commit point.
use trouper.Prelude.{
  ℕ, zero, suc, ◌+◌, ◌-◌, ◌≤◌, ◌<◌, min, ◌≡◌, refl, ap, Bool, true, false, not, ◌||◌, Option, none,
  List, [], ◌∷◌, arith, u64_mod, length, drop, Run, returns, ◌>>=◌,
}
use trouper.Inbox.{Inbox, is_empty_list, pop_through, pops_any, commit_through, claim_up_to}
use trouper.Inbox.Wf.{Numbered, IsWf, pop_through-eq-drop}
use trouper.Inbox.Claims.{numbered, claimed_view, batch_of, IsSettled, claim_up_to-IsSettled}

-- The commit loop of `step_es` in src/kernel.rs: commits every claim of the batch in turn, and
-- answers whether any of these freed a slot.
unfoldable pub commit_each {ℓ} : {E : Type ℓ} → List (ℕ × E) → Inbox E → Run (Inbox E × Bool)
commit_each [] q = returns (q, false)
commit_each ((offset, e) ∷ batch) q =
    commit_through offset q >>= λ r. commit_each batch r.0 >>= λ s. returns (s.0, r.1 || s.1)

module _ {E : Type 0} where
  Numbered-claimed_view : (n k : ℕ) (es : List E) → Numbered k (claimed_view n k es)
  Numbered-claimed_view zero k [] = tt
  Numbered-claimed_view zero k (e ∷ es) = (refl, Numbered-claimed_view zero (suc k) es)
  Numbered-claimed_view (suc n) k [] = tt
  Numbered-claimed_view (suc n) k (e ∷ es) = (refl, Numbered-claimed_view n (suc k) es)

  pops_any-Numbered :
      (k offset : ℕ) (slots : List (ℕ × Option E))
      → Numbered k slots
      → k ≤ offset
      → 1 ≤ length slots
      → pops_any offset slots ≡ true
  unfolding pops_any
  pops_any-Numbered k offset [] h c l = absurd (omega arith)
  pops_any-Numbered k offset ((o, slot) ∷ rest) h c l = ground arith

  -- A commit inside the queue drops exactly the slots up to its offset, moves the cursor just
  -- behind it, and reports that it freed room. Nothing behind the offset moves, claimed or live.
  pub commit_through-drop :
      (offset : ℕ) (q : Inbox E)
      → IsWf q
      → q.cursor ≤ offset
      → offset < q.next_offset
      → commit_through offset q
        ≡ returns
            (record q { queue = drop (offset + 1 - q.cursor) q.queue; cursor = offset + 1 }, true)
  unfolding commit_through
  commit_through-drop offset q w c n = ground (
    arith,
    pop_through-eq-drop q.cursor offset (offset + 1 - q.cursor) q.queue refl w.numbered,
    pops_any-Numbered q.cursor offset q.queue w.numbered c (omega arith),
  )

  -- The first commit of a claimed batch.
  commit_through-first :
      (k : ℕ) (q : Inbox E) (rest : List (ℕ × Option E))
      → q.queue ≡ (k, none) ∷ rest
      → Numbered (suc k) rest
      → k < q.next_offset
      → q.next_offset + 1 < u64_mod
      → commit_through k q ≡ returns (record q { queue = rest; cursor = suc k }, true)
  unfolding commit_through pop_through pops_any
  commit_through-first k q rest h m n f =
      ground (arith, pop_through-eq-drop (suc k) k 0 rest (omega arith) m)

  pub commit_each-claimed :
      (n k : ℕ) (q : Inbox E) (es : List E)
      → q.cursor ≡ k
      → q.queue ≡ claimed_view n k es
      → k + length es ≡ q.next_offset
      → q.next_offset + 1 < u64_mod
      → commit_each (batch_of n k es) q
        ≡ returns (
          record q {
            queue = numbered (k + min n (length es)) (drop n es);
            cursor = k + min n (length es);
          },
          not (is_empty_list (batch_of n k es)),
        )
  unfolding commit_each
  commit_each-claimed zero k q es c h e f = ground (arith, ap (λ i. numbered i es) min_zero)
    where
      min_zero : k + min 0 (length es) ≡ k
      min_zero = omega arith
  commit_each-claimed (suc n) k q [] c h e f = ground arith
  commit_each-claimed (suc n) k q (x ∷ es) c h e f =
      rw
        (commit_through-first k q (claimed_view n (suc k) es) h (Numbered-claimed_view n (suc k) es)
          (omega arith) f)
        (ground (
          arith,
          commit_each-claimed n (suc k)
              (record q { queue = claimed_view n (suc k) es; cursor = suc k }) es refl refl
              (omega arith) f,
          ap (λ i. numbered i (drop n es)) shift,
        ))
    where
      shift : suc k + min n (length es) ≡ k + min (suc n) (suc (length es))
      shift = omega arith

  pub length-drop-min : (n : ℕ) (es : List E) → min n (length es) + length (drop n es) ≡ length es
  length-drop-min zero es = omega arith
  length-drop-min (suc n) [] = omega arith
  length-drop-min (suc n) (e ∷ es) = omega (arith, length-drop-min n es)

  -- A step that claims a batch and commits it message by message consumes exactly the claimed
  -- envelopes: the rest of the queue is settled again behind the cursor, which moved by as many.
  commit_each-claim :
      (n : ℕ) (q : Inbox E) (es : List E)
      → IsSettled q es
      → (q' : Inbox E) × ((claim_up_to n q >>= λ r. commit_each r.1 r.0 >>= λ s. returns s.0)
          ≡ returns q')
        × IsSettled q' (drop n es)
        × (q'.cursor ≡ q.cursor + min n (length es))
        × (q'.next_offset ≡ q.next_offset)
  commit_each-claim n q es s = (
    record q {
      queue = numbered (q.cursor + min n (length es)) (drop n es);
      cursor = q.cursor + min n (length es);
    },
    rw (claim_up_to-IsSettled n q es s) (
        rw
          (commit_each-claimed n q.cursor (record q { queue = claimed_view n q.cursor es }) es refl
            refl s.ends s.fits)
          refl),
    record { holds = refl; ends = omega (arith, length-drop-min n es, s.ends); fits = s.fits },
    refl,
    refl,
  )
