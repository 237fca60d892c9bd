-- ===== src/Supervision.antt =====
-- src/supervision.rs: restart policies, budgets and the sliding window of failures.
-- A `Duration` is its count of nanoseconds; timestamps are `u64` milliseconds.
pub mod Window
pub mod Engine
mod Tests
use trouper.Prelude.{
  ℕ, ◌-◌, ◌/◌, ◌%◌, Bool, List, [], ◌∷◌, ◌++◌, ltb, leb, if◌then◌else◌, length, retain, u64_mod,
}

pub data RestartPolicy : Type 0 where
  permanent transient never : RestartPolicy

abbrev pub Duration : Type 0
Duration = ℕ

-- `Duration::as_millis() as u64`
abbrev pub as_millis_u64 : Duration → ℕ
as_millis_u64 d = (d / 1_000_000) % u64_mod

pub record RestartBudget : Type 0 where
  pub max : ℕ
  pub window : Duration

-- Timestamps of recent failures, oldest first.
pub record FailureWindow : Type 0 where
  pub failures : List ℕ

abbrev pub empty_window : FailureWindow
empty_window = record { failures = [] }

-- `FailureWindow::record`
unfoldable pub record_failure : ℕ → FailureWindow → FailureWindow
record_failure now_ms w = record { failures = w.failures ++ now_ms ∷ [] }

-- The test that the filters share: not older than the window.
abbrev pub within_window : ℕ → ℕ → ℕ → Bool
within_window now_ms window_ms t = leb (now_ms - t) window_ms

unfoldable pub count : ℕ → RestartBudget → FailureWindow → ℕ
count now_ms budget w =
    let window_ms = as_millis_u64 budget.window in
    length (retain (within_window now_ms window_ms) w.failures)

unfoldable pub exhausted : ℕ → RestartBudget → FailureWindow → Bool
exhausted now_ms budget w =
    let window_ms = as_millis_u64 budget.window in
    leb budget.max (length (retain (within_window now_ms window_ms) w.failures))

-- The `while let` of `prune`: pops the front while it is older than the window.
unfoldable pub pop_old : ℕ → ℕ → List ℕ → List ℕ
pop_old now_ms window_ms [] = []
pop_old now_ms window_ms (t ∷ rest) =
    let popped = pop_old now_ms window_ms rest in
    if ltb window_ms (now_ms - t) then popped else t ∷ rest

unfoldable pub prune : ℕ → RestartBudget → FailureWindow → FailureWindow
unfolding pop_old
prune now_ms budget w = record {
  failures = pop_old now_ms (as_millis_u64 budget.window) w.failures;
}
