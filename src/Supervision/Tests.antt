-- ===== src/Supervision/Tests.antt =====
-- Runs of the window and of the engine.
use trouper.Prelude.{◌≡◌, refl, [], ◌∷◌, arith, true}
use trouper.Supervision.{
  permanent, RestartBudget, FailureWindow, empty_window, record_failure, count, exhausted, prune,
}
use trouper.Supervision.Engine.{
  supervise, supervise_history, restarts, escalates, escalated, supervise_refines_history,
}

-- 3 failures in 100 ms
abbrev three_per_100ms : RestartBudget
three_per_100ms = record { max = 3; window = 100_000_000 }

abbrev three_failures : FailureWindow
three_failures = record { failures = 0 ∷ 10 ∷ 20 ∷ [] }

recorded : record_failure 20 (record_failure 10 (record_failure 0 empty_window)) ≡ three_failures
unfolding record_failure
recorded = refl

exhausts : exhausted 30 three_per_100ms three_failures ≡ true
unfolding exhausted
exhausts = refl

forgives : count 105 three_per_100ms (prune 105 three_per_100ms three_failures) ≡ 2
unfolding count prune
forgives = refl

engine_run :
    supervise permanent three_per_100ms empty_window (0 ∷ 10 ∷ 115 ∷ 116 ∷ 117 ∷ [])
    ≡ restarts 1 ∷ restarts 2 ∷ restarts 1 ∷ restarts 2 ∷ escalates escalated ∷ []
unfolding supervise count exhausted prune record_failure
engine_run = refl

supervise_refines_history_example :
    supervise permanent three_per_100ms empty_window (0 ∷ 10 ∷ 115 ∷ [])
    ≡ supervise_history three_per_100ms [] (0 ∷ 10 ∷ 115 ∷ [])
supervise_refines_history_example =
    supervise_refines_history permanent three_per_100ms (0 ∷ 10 ∷ 115 ∷ []) (λ e. cc) (omega arith)
