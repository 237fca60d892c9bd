-- ===== src/Registry/Plain.antt =====
-- What `route` of src/registry.rs picks when some handlers are members of a projector set.
use trouper.Prelude.{
  ℕ, zero, suc, ◌%◌, ◌<◌, ◌≡◌, refl, sym, ap, subst, ◌∙◌, ◌≢◌, inl, inr, Bool, true, false, not,
  Option, none, some, List, [], ◌∷◌, arith, eq_iff, Bool-cases, Option-cases, length, get_elem?,
  any, find, contains,
}
use native.Mathlib.Nat.{mod-lt}
use trouper.Journal.{ActorPath, SchemaId}
use trouper.Registry.{
  plain_candidate, RoutePolicy, single, round_robin, Registry, pick, handlers_in, handlers_of,
  route,
}

contains_self : (p : ActorPath) (ps : List ActorPath) → contains (p ∷ ps) p ≡ true
contains_self p ps = ground (arith, eq_iff p p)

contains-cons :
    (q p : ActorPath) (ps : List ActorPath) → contains ps p ≡ true → contains (q ∷ ps) p ≡ true
contains-cons q p ps h = ground (arith, h)

get_elem?-contains :
    (i : ℕ) (ps : List ActorPath)
    → i < length ps
    → (p : ActorPath) × (get_elem? ps i ≡ some p) × (contains ps p ≡ true)
get_elem?-contains i [] h = absurd (omega arith)
get_elem?-contains zero (p ∷ ps) h = (p, refl, contains_self p ps)
get_elem?-contains (suc i) (q ∷ ps) h =
    let (p, e, c) = get_elem?-contains i ps (omega arith) in (p, e, contains-cons q p ps c)

find-contains :
    (f : ActorPath → Bool) (ps : List ActorPath)
    → any f ps ≡ true
    → (p : ActorPath) × (find f ps ≡ some p) × (f p ≡ true) × (contains ps p ≡ true)
find-contains f [] h = cc
find-contains f (q ∷ ps) h = elim (Bool-cases (f q)) [
  | inl e ↦ (q, rw e refl, e, contains_self q ps)
  | inr e ↦
      let (p, found, fp, c) = find-contains f ps (ground (arith, h, e)) in
      (p, rw e found, fp, contains-cons q p ps c)
]

pick-contains :
    (f : ActorPath → Bool) (policy : RoutePolicy) (cursor : ℕ)
    → any f (handlers_in (some policy)) ≡ true
    → (p : ActorPath) × ((pick policy cursor).0 ≡ some p)
      × (contains (handlers_in (some policy)) p ≡ true)
unfolding pick
pick-contains f (single path) cursor h = (path, refl, contains_self path [])
pick-contains f (round_robin []) cursor h = cc
pick-contains f (round_robin (p ∷ ps)) cursor h =
    get_elem?-contains (cursor % length (p ∷ ps)) (p ∷ ps) (mod-lt cursor (omega arith))

module _ (owned : ActorPath → Bool) where
  abbrev pub is_plain : ActorPath → Bool
  is_plain p = not (owned p)

  plain_candidate-contains :
      (candidate : Option ActorPath) (p : ActorPath) (handlers : List ActorPath)
      → candidate ≡ some p
      → contains handlers p ≡ true
      → any is_plain handlers ≡ true
      → (q : ActorPath) × (plain_candidate owned candidate handlers ≡ some q)
        × (owned q ≡ false)
        × (contains handlers q ≡ true)
  plain_candidate-contains none p handlers e c h = cc
  plain_candidate-contains (some p') p handlers e c h = elim (Bool-cases (owned p')) [
    | inl o ↦
        let (q, found, plain, d) = find-contains is_plain handlers h in
        (q, rw o found, ground (arith, plain), d)
    | inr o ↦ (p', rw o refl, o, subst (λ x. contains handlers x ≡ true) (sym same) c)
  ]
    where
      same : p' ≡ p
      same = cc

  route-some :
      (s : SchemaId) (r : Registry) (policy : RoutePolicy)
      → r.routes s ≡ some policy
      → any is_plain (handlers_in (some policy)) ≡ true
      → (p : ActorPath) × ((route owned s r).0 ≡ some p)
        × (owned p ≡ false)
        × (contains (handlers_in (some policy)) p ≡ true)
  unfolding route handlers_of
  route-some s r policy e h =
      let (p, picked, c) = pick-contains is_plain policy r.route_cursor h in
      let t =
        plain_candidate-contains (pick policy r.route_cursor).0 p (handlers_in (some policy)) picked
          c h in
      (
        t.0,
        rw (e, route, handlers_of)
            (ap (λ o. plain_candidate owned (pick policy r.route_cursor).0 (handlers_in o)) e
              ∙ t.1),
        t.2,
        t.3,
      )

  none-plain : any is_plain [] ≢ true
  none-plain h = cc

  -- A schema-addressed send never lands on a member of a projector set, and finds a handler whenever
  -- the schema has one that is not a member: the path that `route` answers is a registered handler of
  -- the schema and no member.
  route-plain :
      (s : SchemaId) (r : Registry)
      → any is_plain (handlers_of s r) ≡ true
      → (p : ActorPath) × ((route owned s r).0 ≡ some p)
        × (owned p ≡ false)
        × (contains (handlers_of s r) p ≡ true)
  unfolding handlers_of
  route-plain s r h = elim (Option-cases (r.routes s)) [
    | inl e ↦ absurd (none-plain (subst (λ o. any is_plain (handlers_in o) ≡ true) e h))
    | inr (policy, e) ↦
        let t = route-some s r policy e (subst (λ o. any is_plain (handlers_in o) ≡ true) e h) in
        (t.0, t.1, t.2, subst (λ o. contains (handlers_in o) t.0 ≡ true) (sym e) t.3)
  ]
