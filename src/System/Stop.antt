-- ===== src/System/Stop.antt =====
-- `stop_bounded` of src/system.rs: the children first, on the budget that is left, then the actor itself. What
-- a stop waits for is an argument: the polls for a service's `init`, the loop task's exit, which is cut
-- off by the budget, and the unwinding of a task that is aborted then, which nothing cuts off. Times are milliseconds; the order in which
-- the specs are visited is an argument.
use trouper.Prelude.{
  ℕ, zero, suc, ◌+◌, ◌-◌, Bool, false, Option, none, some, List, [], ◌∷◌, str_eq, leb, ◌==◌,
  if◌then◌else◌, retain,
}
use trouper.Journal.{ActorPath}
use trouper.System.{ChildSpec, Tables, normal, teardown_tables, is_there}

pub record Waits : Type 0 where
  -- The polls for the instance of a service.
  pub settle : ActorPath → ℕ
  -- What the loop's task takes to its exit.
  pub join : ActorPath → ℕ
  -- What an aborted task takes to unwind.
  pub unwind : ActorPath → ℕ

abbrev pub is_parent : ActorPath → Option ActorPath → Bool
is_parent path none = false
is_parent path (some q) = str_eq q path

abbrev pub has_parent : ActorPath → Option ChildSpec → Bool
has_parent path none = false
has_parent path (some spec) = is_parent path spec.parent

-- A stop, on a budget: the tables behind it, and the time that it took.
abbrev pub Stop : Type 0 → Type 0 → Type 0
Stop P E = ActorPath → ℕ → Tables P E → Option (Tables P E × ℕ)

-- A loop that runs is waited for up to the budget; behind that it is aborted, and its end is awaited.
abbrev pub join_wait : Waits → ActorPath → ℕ → ℕ
join_wait waits path remaining =
    if leb (waits.join path) remaining then waits.join path else remaining + waits.unwind path

module _ {P E : Type 0} where
  unfoldable pub children_of : List ActorPath → ActorPath → Tables P E → List ActorPath
  children_of order path t = retain (λ q. has_parent path (t.specs q)) order

  abbrev pub and_then : ℕ → Option (Tables P E × ℕ) → Option (Tables P E × ℕ)
  and_then spent none = none
  and_then spent (some r) = some (r.0, spent + r.1)

  -- The loop over the children, which ends when the budget is spent.
  unfoldable pub stop_children :
      Stop P E → List ActorPath → ℕ → Tables P E → Option (Tables P E × ℕ)
  stop_children stop [] budget t = some (t, 0)
  stop_children stop (child ∷ rest) budget t = elim (stop child budget t) [
    | none ↦ none
    | some r ↦
        let behind = stop_children stop rest (budget - r.1) r.0 in
        if leb budget r.1 then some r else and_then r.1 behind
  ]

  -- What the actor's own stop takes.
  abbrev pub own_wait : Waits → ActorPath → ℕ → Tables P E → ℕ
  own_wait waits path remaining t =
      waits.settle path + (if is_there (t.cells path) then join_wait waits path remaining else 0)

  abbrev pub stop_self : Waits → ActorPath → ℕ → Option (Tables P E × ℕ) → Option (Tables P E × ℕ)
  stop_self waits path remaining none = none
  stop_self waits path remaining (some r) =
      some (teardown_tables path normal r.0, r.1 + own_wait waits path remaining r.0)

  -- On fuel for the depth of the tree below `path`.
  unfoldable pub stop_bounded :
      ℕ → Waits → List ActorPath → ActorPath → ℕ → Tables P E → Option (Tables P E × ℕ)
  unfolding children_of stop_children teardown_tables
  stop_bounded zero waits order path remaining t = none
  stop_bounded (suc k) waits order path remaining t =
      let children =
        stop_children (λ c b s. stop_bounded k waits order c b s) (children_of order path t)
          remaining t in
      if remaining == 0 then some (t, 0) else stop_self waits path remaining children
