-- ===== src/System.antt =====
-- The end of an actor in src/system.rs: `teardown_tables`, which every stop path ends in, over the tables
-- of the kernel and the registry. A hash map is a function, a hash set a test. A loop keeps its cell
-- when the table drops it; that the cell is marked for that loop is left out, and so are the tap facts.
-- Whether the inbox's lock is free at the teardown is a field of the cell.
pub mod Teardown
pub mod Sweep
pub mod Stop
pub mod Stopped
mod Tests
use trouper.Prelude.{
  Bool, true, false, ◌||◌, Option, none, some, List, [], ◌∷◌, ◌++◌, map, str_eq, if◌then◌else◌,
}
use trouper.Journal.{ActorPath}
use trouper.Envelope.{Envelope}
use trouper.Inbox.{Inbox, close, drain_live}
use trouper.Kernel.Outbox.{DeadLetter, stopped_with_mail}
use trouper.Registry.{Registry, drop_routes_of}
use trouper.Registry.Slots.{Slots, remove_slot, Answer, done, failed}
use trouper.Schema.{ActorKind, event_sourced, service, ActorManifest}

pub data StopReason : Type 0 where
  normal crashed escalated passivated shutdown : StopReason

pub data LifecycleState : Type 0 where
  running stopped_normal stopped_crashed stopped_escalated stopped_passivated stopped_shutdown :
      LifecycleState

-- `LifecycleState::from`
unfoldable pub state_of : StopReason → LifecycleState
state_of normal = stopped_normal
state_of crashed = stopped_crashed
state_of escalated = stopped_escalated
state_of passivated = stopped_passivated
state_of shutdown = stopped_shutdown

-- `ActorLifecycle`
pub record Announcement : Type 0 where
  pub path : ActorPath
  pub state : LifecycleState
  pub kind : ActorKind

pub record Mailbox (P : Type 0) : Type 0 where
  pub inbox : Inbox (Envelope P)
  pub is_locked : Bool

-- A supervised child's spec, of which only the parent matters here.
pub record ChildSpec : Type 0 where
  pub parent : Option ActorPath

pub record Tables (P E : Type 0) : Type 0 where
  pub cells : ActorPath → Option (Mailbox P)
  pub es_state : ActorPath → Bool
  pub projectors : ActorPath → Bool
  pub services : ActorPath → Bool
  pub specs : ActorPath → Option ChildSpec
  pub routing : Registry
  pub slots : Slots E
  pub dead_letters : List (DeadLetter P)
  pub announced : List Announcement

abbrev pub is_there {ℓ} : {A : Type ℓ} → Option A → Bool
is_there none = false
is_there (some a) = true

abbrev pub without_key {ℓ} : {A : Type ℓ} → ActorPath → A → (ActorPath → A) → ActorPath → A
without_key path gone table p = if str_eq p path then gone else table p

module _ {P : Type 0} where
  unfoldable pub mail_left : Option (Mailbox P) → List (Envelope P)
  unfolding close drain_live
  mail_left none = []
  mail_left (some cell) = if cell.is_locked then [] else (drain_live (close cell.inbox)).1

  abbrev pub stopped_letter : Envelope P → DeadLetter P
  stopped_letter e = record { reason = stopped_with_mail; envelope = e }

module _ {E : Type 0} where
  abbrev pub slots_or : Slots E → Answer (Slots E × ActorManifest) → Slots E
  slots_or slots (done r) = r.0
  slots_or slots (failed error) = slots

module _ {P E : Type 0} where
  unfoldable pub was_live : ActorPath → Tables P E → Bool
  was_live path t = is_there (t.cells path) || is_there (t.specs path)

  -- Behind the first lock, under which it was read whether the actor was live.
  abbrev pub finish_teardown : Bool → ActorPath → StopReason → Tables P E → Tables P E
  finish_teardown live path reason t = record {
    cells = without_key path none t.cells;
    es_state = without_key path false t.es_state;
    projectors = without_key path false t.projectors;
    services = t.services;
    specs = without_key path none t.specs;
    routing = drop_routes_of path t.routing;
    slots = slots_or t.slots (remove_slot path t.slots);
    dead_letters = t.dead_letters ++ map stopped_letter (mail_left (t.cells path));
    announced =
        if live
        then t.announced
          ++ record {
            path = path;
            state = state_of reason;
            kind = if t.es_state path then event_sourced else service;
          }
            ∷ []
        else t.announced;
  }

  -- A teardown that no other one of the path overlaps.
  unfoldable pub teardown_tables : ActorPath → StopReason → Tables P E → Tables P E
  unfolding was_live mail_left remove_slot drop_routes_of state_of
  teardown_tables path reason t = finish_teardown (was_live path t) path reason t

  -- Teardowns from whatever side, one after the other.
  unfoldable pub teardown_all : List (ActorPath × StopReason) → Tables P E → Tables P E
  unfolding teardown_tables
  teardown_all [] t = t
  teardown_all ((path, reason) ∷ stops) t = teardown_all stops (teardown_tables path reason t)
