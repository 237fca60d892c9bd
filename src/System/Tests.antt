-- ===== src/System/Tests.antt =====
-- Runs of the teardown: a parent and its supervised child, and a stop that comes twice.
use trouper.Prelude.{
  Option, ◌≡◌, refl, ◌≢◌, true, false, none, some, [], ◌∷◌, ◌++◌, ℕ, String, str_eq, if◌then◌else◌,
}
use trouper.Journal.{ActorPath}
use trouper.Envelope.{path, Envelope}
use trouper.Inbox.{block}
use trouper.Registry.{round_robin}
use trouper.System.{
  Tables, Mailbox, normal, crashed, passivated, teardown_tables, teardown_all, mail_left, was_live,
}
use trouper.System.Stop.{Waits, stop_bounded}
use trouper.System.Teardown.{owed, IsGone, IsKept, teardown_tables-IsGone}
use trouper.System.Sweep.{times_announced, teardown_all-announced}

abbrev order : Envelope String
order = record {
  schema_id = "shop/Order";
  dest = path "shop";
  from = none;
  reply_to = none;
  trace = record { trace_id = 1; causality_id = 1 };
  payload = "two pears";
  recorded_origin = none;
}

abbrev box_of_one : Mailbox String
box_of_one = record {
  inbox = record {
    capacity = 4;
    policy = block;
    next_offset = 1;
    cursor = 0;
    queue = (0, some order) ∷ [];
    opened = true;
  };
  is_locked = false;
}

abbrev two_actors : Tables String ℕ
two_actors = record {
  cells = λ p. if str_eq p "shop" then some box_of_one else none;
  es_state = λ p. str_eq p "shop";
  projectors = λ p. false;
  services = λ p. str_eq p "till";
  specs = λ p. if str_eq p "till" then some (record { parent = some "shop" }) else none;
  routing = record {
    routes = λ s. if str_eq s "shop/Order" then some (round_robin ("shop" ∷ "till" ∷ [])) else none;
    route_cursor = 0;
  };
  slots = λ p. none;
  dead_letters = [];
  announced = [];
}

leaves_the_mail_behind : mail_left (two_actors.cells "shop") ≡ order ∷ []
unfolding mail_left
leaves_the_mail_behind = refl

teardown_tables-IsGone_example :
    let t' = teardown_tables "shop" crashed two_actors in
    IsGone "shop" t'
    × ((q : ActorPath) → q ≢ "shop" → IsKept q two_actors t')
    × (t'.dead_letters ≡ [] ++ owed (some box_of_one))
teardown_tables-IsGone_example = teardown_tables-IsGone "shop" crashed two_actors

teardown_all-announced_example :
    times_announced "shop"
      (teardown_all
        (("shop", passivated) ∷ ("till", normal) ∷ ("shop", normal) ∷ [])
        two_actors).announced
    ≡ 1
unfolding was_live
teardown_all-announced_example =
    teardown_all-announced "shop" (("shop", passivated) ∷ ("till", normal) ∷ ("shop", normal) ∷ [])
      two_actors

-- Both loops are stuck in a handler.
abbrev stuck : Waits
stuck = record {
  settle = λ p. if str_eq p "shop" then 1000 else 0;
  join = λ p. 5000;
  unwind = λ p. 0;
}

abbrev height : ActorPath → ℕ
height p = if str_eq p "shop" then 1 else 0

abbrev two_running : Tables String ℕ
two_running = record two_actors { cells = λ p. some box_of_one }

abbrev took : Option (Tables String ℕ × ℕ) → ℕ
took none = 0
took (some r) = r.1

-- Each level waits a budget of its own.
two_levels_two_budgets : took (stop_bounded 2 stuck ("till" ∷ []) "shop" 3000 two_running) ≡ 7000
unfolding stop_bounded
two_levels_two_budgets = refl
