-- ===== src/Supervision/Engine.antt =====
-- `supervise_child` of src/kernel.rs: what the engine decides at each crash of one child. The
-- waits (the crash signal, the backoff sleep, the shutdown checks) are not modelled: the input is
-- the list of the times at which the child was seen crashed, up to a shutdown.
use trouper.Prelude.{
  ℕ, ◌%◌, ◌^◌, ◌≤◌, ◌<◌, ◌≡◌, refl, sym, ap, ◌∙◌, ◌≢◌, List, [], ◌∷◌, ◌++◌, leb, if◌then◌else◌,
  length, retain, arith,
}
use trouper.Supervision.{
  RestartPolicy, permanent, transient, never, FailureWindow, RestartBudget, as_millis_u64,
  within_window, count, exhausted, record_failure, pop_old, prune, empty_window,
}
use trouper.Supervision.Window.{Ascending, retain-pop_old_later}

-- Why a terminal child was stopped.
pub data Terminal : Type 0 where
  crashed escalated : Terminal

pub data Verdict : Type 0 where
  escalates : Terminal → Verdict
  -- with the attempt number that the backoff is computed from
  restarts : ℕ → Verdict

budgeted : RestartBudget → FailureWindow → ℕ → Verdict × FailureWindow
budgeted budget window now =
    let pruned = prune now budget (record_failure now window) in
    if exhausted now budget pruned
    then (escalates escalated, pruned)
    else (restarts (count now budget pruned % 2 ^ 32), pruned)

unfoldable pub on_crash :
    RestartPolicy → RestartBudget → FailureWindow → ℕ → Verdict × FailureWindow
unfolding budgeted
on_crash never budget window now = (escalates crashed, window)
on_crash permanent budget window now = budgeted budget window now
on_crash transient budget window now = budgeted budget window now

-- The engine's loop: it returns after an escalation, and waits for the next crash after a restart.
unfoldable pub supervise : RestartPolicy → RestartBudget → FailureWindow → List ℕ → List Verdict
unfolding on_crash
supervise policy budget window [] = []
supervise policy budget window (now ∷ later) =
    let (verdict, window') = on_crash policy budget window now in
    elim verdict [
      | escalates reason ↦ escalates reason ∷ []
      | restarts attempt ↦ restarts attempt ∷ supervise policy budget window' later
    ]

-- The contract, over the whole history of crashes, of which nothing is ever dropped.
pub verdict_of : RestartBudget → List ℕ → ℕ → Verdict
verdict_of budget past now =
    let recent = length (retain (within_window now (as_millis_u64 budget.window)) past) in
    if leb budget.max recent then escalates escalated else restarts (recent % 2 ^ 32)

pub supervise_history : RestartBudget → List ℕ → List ℕ → List Verdict
supervise_history budget past [] = []
supervise_history budget past (now ∷ later) = elim (verdict_of budget (past ++ now ∷ []) now) [
  | escalates reason ↦ escalates reason ∷ []
  | restarts attempt ↦ restarts attempt ∷ supervise_history budget (past ++ now ∷ []) later
]

retain-append :
    (now w : ℕ) (xs ys : List ℕ)
    → retain (within_window now w) (xs ++ ys)
      ≡ retain (within_window now w) xs ++ retain (within_window now w) ys
retain-append now w [] ys = refl
retain-append now w (x ∷ xs) ys = ground (arith, retain-append now w xs ys)

-- The pruned window and the history agree about every later moment.
abbrev SameRecent : ℕ → ℕ → List ℕ → List ℕ → Type 0
SameRecent lo w xs ys =
    (now : ℕ) → lo ≤ now → retain (within_window now w) xs ≡ retain (within_window now w) ys

SameRecent-record :
    (lo t w : ℕ) (xs ys : List ℕ)
    → lo ≤ t
    → SameRecent lo w xs ys
    → SameRecent t w (pop_old t w (xs ++ t ∷ [])) (ys ++ t ∷ [])
SameRecent-record lo t w xs ys le same now h =
    retain-pop_old_later t now w (xs ++ t ∷ []) h
    ∙ retain-append now w xs (t ∷ [])
    ∙ ap (λ r. r ++ retain (within_window now w) (t ∷ [])) (same now (omega arith))
    ∙ sym (retain-append now w ys (t ∷ []))

supervise-eq-history :
    (b : RestartBudget) (lo : ℕ) (w : FailureWindow) (past times : List ℕ)
    → Ascending lo times
    → SameRecent lo (as_millis_u64 b.window) w.failures past
    → supervise permanent b w times ≡ supervise_history b past times
unfolding supervise supervise_history budgeted prune record_failure count exhausted verdict_of
supervise-eq-history b lo w past [] a same = refl
supervise-eq-history b lo w past (t ∷ times) a same = ground (
  arith,
  SameRecent-record lo t (as_millis_u64 b.window) w.failures past a.0 same t,
  supervise-eq-history b t (prune t b (record_failure t w)) (past ++ t ∷ []) times a.1
      (SameRecent-record lo t (as_millis_u64 b.window) w.failures past a.0 same),
)

supervise-transient :
    (b : RestartBudget) (w : FailureWindow) (times : List ℕ)
    → supervise transient b w times ≡ supervise permanent b w times
unfolding supervise
supervise-transient b w [] = refl
supervise-transient b w (t ∷ times) = ground (arith, supervise-transient b (budgeted b w t).1 times)

-- The engine forgets pruned failures and still decides as the contract over the full history: for
-- every policy but `never`, and crashes at ascending times after a fresh start, its verdicts are
-- those computed from all earlier crashes, up to the first escalation.
pub supervise_refines_history :
    (p : RestartPolicy) (b : RestartBudget) (times : List ℕ)
    → p ≢ never
    → Ascending 0 times
    → supervise p b empty_window times ≡ supervise_history b [] times
supervise_refines_history permanent b times h a =
    supervise-eq-history b 0 empty_window [] times a (λ now _. refl)
supervise_refines_history transient b times h a =
    supervise-transient b empty_window times
    ∙ supervise-eq-history b 0 empty_window [] times a (λ now _. refl)
supervise_refines_history never b times h a = absurd (h refl)

count-record :
    (now : ℕ) (w : ℕ) (xs : List ℕ) → 1 ≤ length (retain (within_window now w) (xs ++ now ∷ []))
count-record now w [] = ground arith
count-record now w (x ∷ xs) = ground (arith, count-record now w xs)

-- A restart is granted only below the budget: the failures inside the window, the present one
-- among them, are at least one and fewer than `max`. So a budget of one, or of none, restarts
-- nothing, and `never` restarts nothing.
restart_below_budget :
    (p : RestartPolicy) (b : RestartBudget) (w w' : FailureWindow) (now k : ℕ)
    → on_crash p b w now ≡ (restarts k, w')
    → (1 ≤ count now b w') × (count now b w' < b.max)
unfolding on_crash count exhausted prune record_failure
restart_below_budget never b w w' now k h = cc
restart_below_budget p b w w' now k h = ground (
  arith,
  retain-pop_old_later now now (as_millis_u64 b.window) (w.failures ++ now ∷ []),
  count-record now (as_millis_u64 b.window) w.failures,
)
