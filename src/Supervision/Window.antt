-- ===== src/Supervision/Window.antt =====
-- Pruning and counting in src/supervision.rs.
use trouper.Prelude.{ℕ, ◌-◌, ◌≤◌, ◌≡◌, refl, List, [], ◌∷◌, length, retain, arith}
use trouper.Supervision.{
  FailureWindow, RestartBudget, as_millis_u64, within_window, count, exhausted, pop_old, prune,
}

-- Ascending, with nothing below `lo`.
abbrev pub Ascending : ℕ → List ℕ → Type 0
Ascending lo [] = Unit {0}
Ascending lo (t ∷ ts) = (lo ≤ t) × Ascending t ts

-- What is too old at one moment is too old at every later one.
pub retain-pop_old_later :
    (t now w : ℕ) (ts : List ℕ)
    → t ≤ now
    → retain (within_window now w) (pop_old t w ts) ≡ retain (within_window now w) ts
unfolding pop_old
retain-pop_old_later t now w [] h = refl
retain-pop_old_later t now w (x ∷ ts) h = ground (arith, retain-pop_old_later t now w ts h)

-- What is not older than the front stays once the front stays.
pub retain-all :
    (now w lo : ℕ) (ts : List ℕ)
    → now - lo ≤ w
    → Ascending lo ts
    → retain (within_window now w) ts ≡ ts
retain-all now w lo [] h a = refl
retain-all now w lo (t ∷ ts) h a = ground (arith, retain-all now w t ts)

pub pop_old-eq-retain :
    (now w lo : ℕ) (ts : List ℕ)
    → Ascending lo ts
    → pop_old now w ts ≡ retain (within_window now w) ts
unfolding pop_old
pop_old-eq-retain now w lo [] a = refl
pop_old-eq-retain now w lo (t ∷ ts) a =
    ground (arith, pop_old-eq-retain now w t ts a.1, retain-all now w t ts)

-- Pruning never changes what `count` and `exhausted` answer at the same time, in any order of the
-- recorded failures.
pub count-prune :
    (now : ℕ) (b : RestartBudget) (w : FailureWindow)
    → (count now b (prune now b w) ≡ count now b w)
      × (exhausted now b (prune now b w) ≡ exhausted now b w)
unfolding count exhausted prune
count-prune now b w =
    ground (arith, retain-pop_old_later now now (as_millis_u64 b.window) w.failures)

-- When the failures were recorded in ascending order, pruning leaves exactly those inside the
-- window, so the length of the record is the count.
pub length-prune :
    (now : ℕ) (b : RestartBudget) (w : FailureWindow)
    → Ascending 0 w.failures
    → length (prune now b w).failures ≡ count now b w
unfolding count prune
length-prune now b w a = ground (arith, pop_old-eq-retain now (as_millis_u64 b.window) 0 w.failures)
