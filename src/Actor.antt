-- ===== src/Actor.antt =====
-- src/actor.rs: the event-sourced contract as an interface, and its rebuild.
pub mod Recovery
pub mod Tests
use trouper.Prelude.{◌≡◌, Option, none, some, List, foldl}
use trouper.Journal.{Event, Replayed}

-- What `EventSourcedActor` asks of an actor type. The state, its fold and its codec are the
-- application's; the law is that of a serde round trip.
pub record EventSourced (P S : Type 0) : Type 1 where
  pub State : Type 0
  pub Args : Type 0
  pub restore : Args → State
  pub apply : State → Event P → State
  pub capture : State → Option S
  pub restore_from : S → Option State
  pub restore_from-capture :
      (s : State) (blob : S) → capture s ≡ some blob → restore_from blob ≡ some s

module _ {P S : Type 0} (a : EventSourced P S) where
  open a use {State, Args, restore, apply, restore_from}

  -- `TypedEsState::rebuild`: from the snapshot or the genesis, then the tail.
  unfoldable pub rebuild : Args → Option S → List (Event P) → Option State
  rebuild args none tail = some (foldl apply (restore args) tail)
  rebuild args (some snap) tail = elim (restore_from snap) [
    | none ↦ none
    | some fresh ↦ some (foldl apply fresh tail)
  ]

  -- The recovery of `restart_es` and of a spawn: what a store's replay rebuilds.
  unfoldable pub recover : Args → Replayed P S → Option State
  unfolding rebuild
  recover args r =
      rebuild args (elim r.latest [ none ↦ none | some (seq, state) ↦ some state ]) r.tail
