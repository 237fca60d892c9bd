-- ===== src/System/Stopped.antt =====
-- What a bounded stop of src/system.rs leaves, and how long it takes.
use trouper.Prelude.{ℕ, ◌+◌, ◌*◌, ◌≤◌, ◌<◌, ◌≡◌, ◌⊎◌, none, some, List, All}
use trouper.Journal.{ActorPath}
use trouper.System.{ChildSpec, Tables}
use trouper.System.Stop.{Stop}

-- Who supervises whom has no cycle: `rank` is the height of an actor in its tree.
pub record IsTree {P E : Type 0} (rank : ActorPath → ℕ) (t : Tables P E) : Type 0 where
  pub below :
      (p q : ActorPath) (spec : ChildSpec)
      → t.specs p ≡ some spec
      → spec.parent ≡ some q
      → rank p < rank q

module _ {P E : Type 0} where
  -- Nobody is started, and nobody gets another supervisor.
  pub record IsShrunk (t t' : Tables P E) : Type 0 where
    pub cells : (q : ActorPath) → t.cells q ≡ none → t'.cells q ≡ none
    pub specs : (q : ActorPath) (s : ChildSpec) → t'.specs q ≡ some s → t.specs q ≡ some s

  -- A stop's outcome: the actor is gone, its children are gone or the budget is spent, and the time.
  pub record IsStopped (turns remaining slack : ℕ) (path : ActorPath) (children : List ActorPath)
      (t : Tables P E) (r : Tables P E × ℕ) : Type 0 where
    pub shrunk : IsShrunk t r.0
    pub gone : r.0.cells path ≡ none
    pub children_gone : All (λ c. r.0.cells c ≡ none) children ⊎ (remaining ≤ r.1)
    pub within : r.1 ≤ turns * (remaining + slack)

  record IsSwept (turns budget slack : ℕ) (cs : List ActorPath) (t : Tables P E)
      (r : Tables P E × ℕ) : Type 0 where
    pub shrunk : IsShrunk t r.0
    pub gone : All (λ c. r.0.cells c ≡ none) cs ⊎ (budget ≤ r.1)
    pub within : r.1 ≤ turns * (budget + slack)

  -- What a stop of one child comes to.
  record StopsChild (turns budget slack : ℕ) (c : ActorPath) (t : Tables P E) (r : Tables P E × ℕ)
      : Type 0 where
    pub shrunk : IsShrunk t r.0
    pub gone : r.0.cells c ≡ none
    pub within : r.1 ≤ turns * (budget + slack)
