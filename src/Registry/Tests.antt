-- ===== src/Registry/Tests.antt =====
-- Runs of the routes.
use trouper.Prelude.{◌≡◌, refl, none, some, [], ◌∷◌, str_eq, if◌then◌else◌}
use trouper.Registry.{round_robin, Registry, no_routes, add_route, handlers_of}

abbrev two_handlers : Registry
two_handlers = record {
  routes = λ s. if str_eq s "acme/A" then some (round_robin ("a" ∷ "b" ∷ [])) else none;
  route_cursor = 0;
}

registers_in_order :
    handlers_of "acme/A" (add_route "acme/A" "b" (add_route "acme/A" "a" no_routes))
    ≡ "a" ∷ "b" ∷ []
unfolding add_route handlers_of
registers_in_order = refl
