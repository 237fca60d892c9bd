-- ===== src/Registry.antt =====
-- The routes of src/registry.rs: which actors handle a schema, and the round-robin pick. The hash map
-- is a function from a schema to its policy. `owned` stands for the answer of
-- `projector_set_owning`, whether a path is a member of a projector set.
pub mod Handlers
pub mod Rotation
pub mod Plain
pub mod Paths
pub mod Slots
pub mod Sets
mod Tests
use trouper.Prelude.{
  ℕ, ◌+◌, ◌%◌, Bool, not, Option, none, some, List, [], ◌∷◌, ◌++◌, str_eq, if◌then◌else◌, length,
  get_elem?, retain, find, contains,
}
use trouper.Journal.{ActorPath, SchemaId}

pub data RoutePolicy : Type 0 where
  single : ActorPath → RoutePolicy
  round_robin : List ActorPath → RoutePolicy

pub record Registry : Type 0 where
  pub routes : SchemaId → Option RoutePolicy
  pub route_cursor : ℕ

abbrev pub no_routes : Registry
no_routes = record { routes = λ s. none; route_cursor = 0 }

-- The pick, and the cursor behind it.
unfoldable pub pick : RoutePolicy → ℕ → Option ActorPath × ℕ
pick (single path) cursor = (some path, cursor)
pick (round_robin []) cursor = (none, cursor)
pick (round_robin (p ∷ ps)) cursor =
    let paths = p ∷ ps in (get_elem? paths (cursor % length paths), (cursor + 1) % length paths)

-- The policy of a schema once a path is added to it.
unfoldable pub extended : Option RoutePolicy → ActorPath → RoutePolicy
extended none path = single path
extended (some (single existing)) path =
    if str_eq existing path then single existing else round_robin (existing ∷ path ∷ [])
extended (some (round_robin paths)) path =
    if contains paths path then round_robin paths else round_robin (paths ++ path ∷ [])

unfoldable pub add_route : SchemaId → ActorPath → Registry → Registry
unfolding extended
add_route schema path r = record r {
  routes = λ s. if str_eq s schema then some (extended (r.routes schema) path) else r.routes s;
}

abbrev pub round_robin_if_any : List ActorPath → Option RoutePolicy
round_robin_if_any [] = none
round_robin_if_any (first ∷ others) = some (round_robin (first ∷ others))

-- What `retain` leaves of one route.
unfoldable pub without : ActorPath → RoutePolicy → Option RoutePolicy
without path (single existing) = if str_eq existing path then none else some (single existing)
without path (round_robin paths) = round_robin_if_any (retain (λ p. not (str_eq p path)) paths)

unfoldable pub drop_routes_of : ActorPath → Registry → Registry
unfolding without
drop_routes_of path r = record r {
  routes = λ s. elim (r.routes s) [ none ↦ none | some policy ↦ without path policy ];
}

abbrev pub handlers_in : Option RoutePolicy → List ActorPath
handlers_in none = []
handlers_in (some (single path)) = path ∷ []
handlers_in (some (round_robin paths)) = paths

unfoldable pub handlers_of : SchemaId → Registry → List ActorPath
handlers_of schema r = handlers_in (r.routes schema)

module _ (owned : ActorPath → Bool) where
  -- The candidate, or the first handler that is not a member in its place.
  abbrev pub plain_candidate : Option ActorPath → List ActorPath → Option ActorPath
  plain_candidate none handlers = none
  plain_candidate (some path) handlers =
      if owned path then find (λ p. not (owned p)) handlers else some path

  unfoldable pub route : SchemaId → Registry → Option ActorPath × Registry
  unfolding pick handlers_of
  route schema r = elim (r.routes schema) [
    | none ↦ (none, r)
    | some policy ↦
        let (candidate, cursor) = pick policy r.route_cursor in
        let r' : Registry = record r { route_cursor = cursor } in
        (plain_candidate candidate (handlers_of schema r'), r')
  ]
