-- ===== src/Registry/Rotation.antt =====
-- The round-robin cursor of src/registry.rs.
use trouper.Prelude.{
  ℕ, zero, suc, ◌+◌, ◌%◌, ◌<◌, ◌≡◌, refl, ap, ◌∙◌, Option, some, List, [], ◌∷◌, arith, length,
  get_elem?,
}
use native.Mathlib.Nat.{mod-add-mod}
use trouper.Journal.{ActorPath}
use trouper.Registry.{RoutePolicy, round_robin, pick}

-- `k` picks in a row on one policy.
abbrev picks : ℕ → RoutePolicy → ℕ → List (Option ActorPath)
picks zero policy cursor = []
picks (suc k) policy cursor = (pick policy cursor).0 ∷ picks k policy (pick policy cursor).1

-- Two schemas in turn, on the cursor that the registry shares between them: what the first one gets.
abbrev pub picks_in_turn : ℕ → RoutePolicy → RoutePolicy → ℕ → List (Option ActorPath)
picks_in_turn zero ours theirs cursor = []
picks_in_turn (suc k) ours theirs cursor =
    (pick ours cursor).0 ∷ picks_in_turn k ours theirs (pick theirs (pick ours cursor).1).1

-- In a row, the picks visit the handlers in registration order, around and around from the cursor: the
-- pick at position `i` is the handler at `(cursor + i) % n` of the `n`.
picks-get_elem? :
    (k i : ℕ) (p : ActorPath) (ps : List ActorPath) (cursor : ℕ)
    → i < k
    → get_elem? (picks k (round_robin (p ∷ ps)) cursor) i
      ≡ some (get_elem? (p ∷ ps) ((cursor + i) % length (p ∷ ps)))
unfolding pick
picks-get_elem? zero i p ps cursor h = absurd (omega arith)
picks-get_elem? (suc k) zero p ps cursor h =
    ap (λ c. some (get_elem? (p ∷ ps) (c % length (p ∷ ps)))) (omega arith)
picks-get_elem? (suc k) (suc i) p ps cursor h =
    picks-get_elem? k i p ps ((cursor + 1) % length (p ∷ ps)) (omega arith)
    ∙ ap (λ c. some (get_elem? (p ∷ ps) c))
        (mod-add-mod (cursor + 1) (length (p ∷ ps)) i ∙ ap (λ c. c % length (p ∷ ps)) (omega arith))

-- The flaw of one shared cursor: when sends of two schemas with two handlers each alternate, the first
-- schema's sends all go to one of its handlers, and the other is never picked.
picks_in_turn-starves :
    (k i : ℕ) (p q p' q' : ActorPath) (cursor : ℕ)
    → i < k
    → get_elem? (picks_in_turn k (round_robin (p ∷ q ∷ [])) (round_robin (p' ∷ q' ∷ [])) cursor) i
      ≡ some (get_elem? (p ∷ q ∷ []) (cursor % 2))
unfolding pick
picks_in_turn-starves zero i p q p' q' cursor h = absurd (omega arith)
picks_in_turn-starves (suc k) zero p q p' q' cursor h = refl
picks_in_turn-starves (suc k) (suc i) p q p' q' cursor h =
    picks_in_turn-starves k i p q p' q' (((cursor + 1) % 2 + 1) % 2) (omega arith)
    ∙ ap (λ c. some (get_elem? (p ∷ q ∷ []) c)) (omega arith)
