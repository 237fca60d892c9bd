-- ===== src/System/Sweep.antt =====
-- Several sides that end actors, one after the other, and how often src/system.rs announces an end.
use trouper.Prelude.{
  ℕ, ◌+◌, ◌≡◌, ap, inl, inr, Bool, true, false, not, ◌&&◌, ◌||◌, List, [], ◌∷◌, ◌++◌, arith, str_eq,
  eq_iff, if◌then◌else◌, Bool-cases,
}
use trouper.Journal.{ActorPath}
use trouper.Schema.{event_sourced, service}
use trouper.System.{
  state_of, Tables, StopReason, Announcement, teardown_tables, teardown_all, was_live,
}

-- How often a path is announced.
abbrev pub times_announced : ActorPath → List Announcement → ℕ
times_announced p [] = 0
times_announced p (x ∷ xs) = (if str_eq p x.path then 1 else 0) + times_announced p xs

times_announced-snoc :
    (p : ActorPath) (xs : List Announcement) (x : Announcement)
    → times_announced p (xs ++ x ∷ []) ≡ times_announced p xs + (if str_eq p x.path then 1 else 0)
times_announced-snoc p [] x = omega arith
times_announced-snoc p (y ∷ ys) x = ground (arith, times_announced-snoc p ys x)

abbrev pub is_stopped : ActorPath → List (ActorPath × StopReason) → Bool
is_stopped p [] = false
is_stopped p (stop ∷ stops) = str_eq p stop.0 || is_stopped p stops

module _ {P E : Type 0} where
  -- Who is live behind a teardown.
  was_live-teardown_tables :
      (p path : ActorPath) (reason : StopReason) (t : Tables P E)
      → was_live p (teardown_tables path reason t) ≡ (was_live p t && not (str_eq p path))
  unfolding teardown_tables was_live
  was_live-teardown_tables p path reason t = elim (Bool-cases (str_eq p path)) [
    | inl h ↦ rw (h) (ground (arith, was_live p t))
    | inr h ↦ rw (h) (ground (arith, was_live p t))
  ]

  announced-teardown_tables :
      (p path : ActorPath) (reason : StopReason) (t : Tables P E)
      → times_announced p (teardown_tables path reason t).announced
        ≡ times_announced p t.announced + (if was_live p t && str_eq p path then 1 else 0)
  unfolding teardown_tables
  announced-teardown_tables p path reason t =
      let x : Announcement = record {
        path = path;
        state = state_of reason;
        kind = if t.es_state path then event_sourced else service;
      } in
      let same : str_eq p path ≡ true → was_live p t ≡ was_live path t =
        λ e. ap (λ q. was_live q t) ((eq_iff p path).0 e) in
      elim (Bool-cases (was_live path t)) [
        | inl h ↦ rw (h) (ground (arith, times_announced-snoc p t.announced x, same, h))
        | inr h ↦ rw (h) (ground (arith, same, h))
      ]

  -- Whatever sides tear actors down, in whatever order and how often, but one after the other: an actor
  -- that was live is announced as stopped once if it is among them, and no other is announced. Two
  -- teardowns of one actor that overlap are not covered: both may have read that it was live.
  pub teardown_all-announced :
      (p : ActorPath) (stops : List (ActorPath × StopReason)) (t : Tables P E)
      → times_announced p (teardown_all stops t).announced
        ≡ times_announced p t.announced + (if was_live p t && is_stopped p stops then 1 else 0)
  unfolding teardown_all
  teardown_all-announced p [] t = ground arith
  teardown_all-announced p ((path, reason) ∷ stops) t = ground (
    arith,
    teardown_all-announced p stops (teardown_tables path reason t),
    was_live-teardown_tables p path reason t,
    announced-teardown_tables p path reason t,
  )
