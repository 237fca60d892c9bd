-- ===== src/Registry/Handlers.antt =====
-- The handlers of a schema in src/registry.rs.
use trouper.Prelude.{
  ◌≡◌, refl, ◌≢◌, inl, inr, true, false, not, Option, none, some, List, [], ◌∷◌, ◌++◌, arith,
  str_eq, eq_iff, if◌then◌else◌, Bool-cases, retain, contains,
}
use trouper.Journal.{ActorPath, SchemaId}
use trouper.Registry.{
  handlers_in, round_robin_if_any, RoutePolicy, single, round_robin, Registry, extended, add_route,
  without, drop_routes_of, handlers_of,
}

str_eq_self : (s : SchemaId) → str_eq s s ≡ true
str_eq_self s = ground (arith, eq_iff s s)

str_eq_other : (s t : SchemaId) → s ≢ t → str_eq s t ≡ false
str_eq_other s t n = ground (arith, eq_iff s t, n)

handlers_in-extended :
    (o : Option RoutePolicy) (path : ActorPath)
    → handlers_in (some (extended o path))
      ≡ (if contains (handlers_in o) path then handlers_in o else handlers_in o ++ path ∷ [])
unfolding extended
handlers_in-extended none path = refl
handlers_in-extended (some (single existing)) path = ground arith
handlers_in-extended (some (round_robin paths)) path = ground arith

handlers_in-any : (paths : List ActorPath) → handlers_in (round_robin_if_any paths) ≡ paths
handlers_in-any [] = refl
handlers_in-any (p ∷ ps) = refl

handlers_in-without :
    (path : ActorPath) (policy : RoutePolicy)
    → handlers_in (without path policy)
      ≡ retain (λ p. not (str_eq p path)) (handlers_in (some policy))
unfolding without
handlers_in-without path (single existing) = elim (Bool-cases (str_eq existing path)) [
  | inl e ↦ rw (e, without)
  | inr e ↦ rw (e, without)
]
handlers_in-without path (round_robin paths) =
    handlers_in-any (retain (λ p. not (str_eq p path)) paths)

handlers_in-dropped :
    (path : ActorPath) (o : Option RoutePolicy)
    → handlers_in (elim o [ none ↦ none | some policy ↦ without path policy ])
      ≡ retain (λ p. not (str_eq p path)) (handlers_in o)
handlers_in-dropped path none = refl
handlers_in-dropped path (some policy) = handlers_in-without path policy

-- A registration puts the path behind the schema's handlers unless it is among them, so the handlers
-- are kept in registration order, each of them once; and it changes no other schema's.
handlers_of-add_route :
    (schema other : SchemaId) (path : ActorPath) (r : Registry)
    → other ≢ schema
    → let before = handlers_of schema r in
      (handlers_of schema (add_route schema path r)
        ≡ (if contains before path then before else before ++ path ∷ []))
      × (handlers_of other (add_route schema path r) ≡ handlers_of other r)
unfolding add_route handlers_of
handlers_of-add_route schema other path r n = (
  rw (str_eq_self schema, add_route) (handlers_in-extended (r.routes schema) path),
  rw (str_eq_other other schema n, add_route) refl,
)

-- Removing an actor's routes takes it out of the handlers of every schema, and leaves the others in
-- their order.
pub handlers_of-drop_routes_of :
    (s : SchemaId) (path : ActorPath) (r : Registry)
    → handlers_of s (drop_routes_of path r) ≡ retain (λ p. not (str_eq p path)) (handlers_of s r)
unfolding drop_routes_of handlers_of
handlers_of-drop_routes_of s path r = handlers_in-dropped path (r.routes s)
