-- ===== src/Kernel/Lifetime/Tests.antt =====
-- The counter actor hits a poisoned message, gets more mail while it is down, and is restarted.
use trouper.Prelude.{
  ℕ, ◌≡◌, refl, sym, ap, subst, ◌⊎◌, Bool, true, false, some, none, List, [], ◌∷◌, ◌++◌, arith,
  some≢none, Run, returns, panics,
}
use trouper.Journal.{append_events, last_snapshot}
use trouper.Actor.Recovery.{IsFaithful}
use trouper.Actor.Tests.{counter, two_events, two_events-IsDense}
use trouper.Inbox.{ok, close, commit_through, push, claim_up_to, restore_claims}
use trouper.Envelope.{Envelope}
use trouper.Inbox.Claims.{IsSettled}
use trouper.Inbox.Commits.{commit_each}
use trouper.Kernel.Decide.{
  Step, work, idle, stop, declared_events, decide_all, Cell, crashed, same_origin,
}
use trouper.Kernel.Step.{step_es}
use trouper.Kernel.Step.Tests.{
  mail, cell_with, counter_loop, booming, booming_mails, booming-IsSettled,
}
use trouper.Kernel.Lifetime.{
  Fits, Move, arrives, steps, restarts, Runs, starts, goes_on, restart_es, queued,
}
use trouper.Kernel.Lifetime.Passivation.{is_due, Turns, stays, passivates, maybe_passivate, IsCalm}
use trouper.Kernel.Lifetime.Drained.{closed_door, Ended, maybe_passivate-Ended}
use trouper.Kernel.Lifetime.Sound.{IsSound, Runs-IsSound, Runs-restart_es}

abbrev boomed : Cell counter
boomed = record booming { is_crashed = true }

abbrev more_mail : Cell counter
more_mail = record boomed {
  inbox = record booming.inbox {
    next_offset = 8;
    queue = booming.inbox.queue ++ (7, some (mail "Add" none)) ∷ [];
  };
}

abbrev back_again : Cell counter
back_again = record more_mail { live = 12; is_crashed = false; last_event_seq = 1 }

booming-Fits : Fits counter counter_loop booming (queued booming.inbox.queue)
unfolding same_origin declared_events decide_all
booming-Fits = record {
  unstamped = refl;
  events = omega arith;
  boundary = omega arith;
  arrivals = omega arith;
}

booms : Move counter 0 counter_loop booming boomed
unfolding step_es claim_up_to restore_claims
booms = steps false 40 booming boomed crashed refl refl booming-Fits refl

gets_mail : Move counter 0 counter_loop boomed more_mail
unfolding push
gets_mail = arrives (mail "Add" none) boomed more_mail.inbox (ok 7) (omega arith) refl

two_events-IsFaithful : IsFaithful counter 0 two_events
unfolding last_snapshot
two_events-IsFaithful seq state e = absurd (some≢none (sym e))

comes_back : Move counter 0 counter_loop more_mail back_again
unfolding restart_es
comes_back = restarts more_mail back_again refl two_events-IsFaithful refl

abbrev the_run : Runs counter 0 counter_loop booming back_again
the_run = goes_on (goes_on (goes_on starts booms) gets_mail) comes_back

booming-IsSound : IsSound counter 0 booming
booming-IsSound = record {
  settled = (booming_mails, booming-IsSettled);
  live = record { folded = refl; is_dense = two_events-IsDense };
}

Runs-IsSound_example : IsSound counter 0 back_again
Runs-IsSound_example = Runs-IsSound counter 0 counter_loop the_run booming-IsSound

Runs-restart_es_example :
    (r : Cell counter) × (restart_es counter 0 more_mail ≡ some r)
    × (r.live ≡ 12)
    × (r.inbox.queue ≡ more_mail.inbox.queue)
    × (r.inbox.cursor ≡ 4)
    × (r.journal ≡ two_events)
    × (r.is_crashed ≡ false)
Runs-restart_es_example =
    Runs-restart_es counter 0 counter_loop (goes_on (goes_on starts booms) gets_mail)
      booming-IsSound two_events-IsFaithful

-- Two messages, and a poisoned one behind them, when the idle window has elapsed.
abbrev poison_last : Cell counter
poison_last =
    cell_with (
      (4, some (mail "Add" none)) ∷ (5, some (mail "Add" none)) ∷ (6, some (mail "Boom" none)) ∷ [])

abbrev poison_mails : List (Envelope ℕ)
poison_mails = mail "Add" none ∷ mail "Add" none ∷ mail "Boom" none ∷ []

poison_last-IsSettled : IsSettled (poison_last.inbox) poison_mails
poison_last-IsSettled = record { holds = refl; ends = omega arith; fits = omega arith }

poison_last-IsSound : IsSound counter 0 poison_last
poison_last-IsSound = record {
  settled = (poison_mails, poison_last-IsSettled);
  live = record { folded = refl; is_dense = two_events-IsDense };
}

abbrev in_time : Turns
in_time k = (false, 40)

abbrev cell_of : Run (Cell counter × Step) → Cell counter
cell_of (returns r) = r.0
cell_of panics = poison_last

abbrev two_done : Cell counter
two_done = cell_of (step_es counter counter_loop false 40 (closed_door counter poison_last))

abbrev worked : Run (Cell counter × Step) → Bool
worked (returns (w, work)) = true
worked (returns (w, idle)) = false
worked (returns (w, crashed)) = false
worked (returns (w, stop)) = false
worked panics = false

two_done-IsCalm : IsCalm counter 3 counter_loop in_time two_done
unfolding step_es claim_up_to same_origin declared_events decide_all close commit_each
    commit_through append_events restore_claims
two_done-IsCalm = (
  refl,
  record { unstamped = refl; events = omega arith; boundary = omega arith; arrivals = omega arith },
  λ w' e. let clash : ◌≡◌ {A = Bool} false true = ap worked e in absurd cc,
)

poison_last-IsCalm : IsCalm counter 4 counter_loop in_time (closed_door counter poison_last)
unfolding step_es claim_up_to same_origin declared_events decide_all close commit_each
    commit_through append_events restore_claims
poison_last-IsCalm = (
  refl,
  record { unstamped = refl; events = omega arith; boundary = omega arith; arrivals = omega arith },
  λ w' e. subst (IsCalm counter 3 counter_loop in_time) (ap cell_of e) two_done-IsCalm,
)

maybe_passivate-Ended_example :
    let r = maybe_passivate counter 4 counter_loop in_time false (some 10) 20 40 poison_last in
    ((r ≡ returns stays) × ((false ≡ true) ⊎ (is_due (some 10) 20 40 ≡ false)))
    ⊎ ((v : Cell counter) × (outcome : Step) × (r ≡ returns (passivates v outcome))
        × IsSound counter 0 v
        × Ended counter poison_mails poison_last (v, outcome))
maybe_passivate-Ended_example =
    maybe_passivate-Ended counter 0 counter_loop in_time false (some 10) 20 40 poison_last
      poison_mails poison_last-IsSettled poison_last-IsSound (omega arith) poison_last-IsCalm
