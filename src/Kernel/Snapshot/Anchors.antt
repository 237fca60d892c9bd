-- ===== src/Kernel/Snapshot/Anchors.antt =====
-- The anchors of a message cadence.
use trouper.Prelude.{
  subst, ◌∙◌, ℕ, zero, suc, ◌+◌, ◌%◌, ◌≤◌, ◌<◌, ◌-◌, ◌*◌, ◌/◌, add_u64, ◌≡◌, refl, inl, inr, some,
  List, [], ◌∷◌, arith, ltb, Bool-cases, u64_mod,
}
use native.Mathlib.Nat.{add-mod_right, div-add-mod', mod-lt, mod-eq_of_lt, mul-mod_left}
use trouper.Kernel.Snapshot.{last_of, first_boundary, anchor_loop, anchors_between}

-- Ascending by `n` from `boundary`, none of them behind `last`, and none left out before it.
abbrev pub Boundaries : ℕ → ℕ → ℕ → List ℕ → Type 0
Boundaries n last boundary [] = last < boundary
Boundaries n last boundary (x ∷ xs) =
    (x ≡ boundary) × (x ≤ last) × Boundaries n last (boundary + n) xs

anchor_loop-Boundaries :
    (fuel n boundary last : ℕ)
    → 1 ≤ n
    → last < boundary + fuel
    → boundary ≤ last
    → last + n < u64_mod
    → (l : List ℕ) × (anchor_loop fuel n boundary last ≡ some l) × Boundaries n last boundary l
unfolding anchor_loop
anchor_loop-Boundaries zero n boundary last one f b m = absurd (omega arith)
anchor_loop-Boundaries (suc fuel) n boundary last one f b m =
    elim (Bool-cases (ltb last (add_u64 boundary n))) [
      | inl stop ↦ (boundary ∷ [], rw (stop, anchor_loop) refl, (refl, b, ground arith))
      | inr more ↦
          let (l, e, bs) =
            anchor_loop-Boundaries fuel n (boundary + n) last one (omega arith) (ground arith) m in
          (boundary ∷ l, ground (arith, e), (refl, b, bs))
    ]

-- The quotient that rounds up, read without the words' wrap-around.
first_boundary-suc :
    (n first : ℕ)
    → 1 ≤ n
    → first + n < u64_mod
    → (first_boundary n first + 1 ≡ (first + n) / n * n)
      × ((first + n) / n * n ≤ first + n)
      × (first + n < (first + n) / n * n + n)
unfolding first_boundary
first_boundary-suc n first one m = (
  rw same (
      omega (
        arith,
        mod-eq_of_lt {n = (first + n) / n * n} {m = u64_mod} (omega (arith, split, rest)),
        split,
        rest,
      )),
  omega (arith, split),
  omega (arith, split, rest),
)
  where
    same : add_u64 first 1 + n - 1 ≡ first + n
    same = omega arith

    split : (first + n) / n * n + (first + n) % n ≡ first + n
    split = div-add-mod' (first + n) n

    rest : (first + n) % n < n
    rest = mod-lt (first + n) (omega arith)

-- The first boundary is the first position `n * k - 1` at or behind the batch's start.
first_boundary-lem :
    (n first : ℕ)
    → 1 ≤ n
    → first + n < u64_mod
    → (first ≤ first_boundary n first)
      × (first_boundary n first < first + n)
      × ((first_boundary n first + 1) % n ≡ 0)
first_boundary-lem n first one m =
    let b = first_boundary-suc n first one m in
    (omega (arith, b), omega (arith, b), rw b.0 (mul-mod_left ((first + n) / n) n))

-- A batch of at least `n` events, and below the end of the 64-bit range, is given a snapshot at
-- every boundary inside it, and at no other place: the anchors ascend by `n` from the first position
-- `n * k - 1` at or behind its first event, up to its last event. The loop ends.
pub anchors_between-Boundaries :
    (n first last : ℕ)
    → 1 ≤ n
    → first + n ≤ last + 1
    → last + n < u64_mod
    → (l : List ℕ) × (anchors_between n first last ≡ some l)
      × Boundaries n last (first_boundary n first) l
      × ((first_boundary n first + 1) % n ≡ 0)
      × (first ≤ first_boundary n first)
      × (first_boundary n first < first + n)
unfolding anchors_between
anchors_between-Boundaries n first last one long m =
    let b = first_boundary-lem n first one (omega arith) in
    let r =
      anchor_loop-Boundaries (suc last) n (first_boundary n first) last one (omega arith)
        (omega (arith, b)) m in
    (r.0, ground (arith, r.1), r.2, b.2, b.0, b.1)

-- The last anchor: a boundary with fewer than `n` events behind it.
pub Boundaries-last :
    (n last boundary x : ℕ) (xs : List ℕ)
    → (boundary + 1) % n ≡ 0
    → Boundaries n last boundary (x ∷ xs)
    → (last_of x xs ≤ last) × (last < last_of x xs + n) × ((last_of x xs + 1) % n ≡ 0)
Boundaries-last n last boundary x [] m b = (b.1, omega arith, rw b.0 m)
Boundaries-last n last boundary x (y ∷ ys) m b =
    Boundaries-last n last (boundary + n) y ys
      (subst (λ k. k % n ≡ 0) (bump boundary) (add-mod_right (boundary + 1) n ∙ m)) b.2
  where
    bump : (k : ℕ) → k + 1 + n ≡ k + n + 1
    bump k = omega arith
