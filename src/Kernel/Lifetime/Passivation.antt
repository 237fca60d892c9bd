-- ===== src/Kernel/Lifetime/Passivation.antt =====
-- `maybe_passivate` of src/kernel.rs: the idle check, and the drain of the mail that is queued when the door
-- closes. The hint to the store is in JournalDaow.Cold and the exit's teardown in System.
use trouper.Prelude.{
  ℕ, zero, suc, ◌-◌, ◌≡◌, Bool, true, false, Option, none, some, ltb, if◌then◌else◌, Run, returns,
  ◌>>=◌,
}
use trouper.Actor.{EventSourced}
use trouper.Inbox.{close, peek}
use trouper.Kernel.Decide.{Cell, EsLoop, Step, work, idle, crashed, stop}
use trouper.Kernel.Step.{step_es}
use trouper.Kernel.Lifetime.{Fits, queued}

-- Whether the idle window has elapsed; the subtraction stops at 0, as the source's does.
abbrev pub is_due : Option ℕ → ℕ → ℕ → Bool
is_due none last now = false
is_due (some idle_for) last now = if ltb (now - last) idle_for then false else true

-- Whether the store fails in a turn, and the time of it, by the turns that are left.
abbrev pub Turns : Type 0
Turns = ℕ → Bool × ℕ

module _ {P S : Type 0} (a : EventSourced P S) where
  -- What the loop makes of a step: only work is followed by another turn.
  abbrev pub behind_turn :
      (Cell a → Run (Option (Cell a × Step))) → Cell a × Step → Run (Option (Cell a × Step))
  behind_turn again (w, work) = again w
  behind_turn again (w, idle) = returns (some (w, idle))
  behind_turn again (w, crashed) = returns (some (w, crashed))
  behind_turn again (w, stop) = returns (some (w, stop))

  -- The loop over the queued mail, on fuel: the cell, and the outcome of the last step.
  unfoldable pub drain_mail : ℕ → EsLoop a → Turns → Cell a → Run (Option (Cell a × Step))
  unfolding peek step_es
  drain_mail zero loop turns w = returns none
  drain_mail (suc k) loop turns w = peek w.inbox >>= λ mail. elim mail [
    | none ↦ returns (some (w, work))
    | some e ↦
        step_es a loop (turns k).0 (turns k).1 w >>= behind_turn (λ w'. drain_mail k loop turns w')
  ]

  -- What the idle check came to.
  pub data Idled : Type 0 where
    stays : Idled
    passivates : Cell a → Step → Idled
    out_of_fuel : Idled

  abbrev pub passivates_at : Option (Cell a × Step) → Idled
  passivates_at none = out_of_fuel
  passivates_at (some (w, outcome)) = passivates w outcome

  -- However the drain ends, the actor goes.
  unfoldable pub maybe_passivate :
      ℕ → EsLoop a → Turns → Bool → Option ℕ → ℕ → ℕ → Cell a → Run Idled
  unfolding drain_mail close
  maybe_passivate fuel loop turns shutting_down idle_for last now w =
      if shutting_down
      then returns stays
      else if is_due idle_for last now
      then drain_mail fuel loop turns (record w { inbox = close w.inbox })
        >>= (λ r. returns (passivates_at r))
      else returns stays

  -- No turn of the drain runs a counter out, works on a batch of one recorded fact, or meets a stop
  -- from outside.
  abbrev pub IsCalm : ℕ → EsLoop a → Turns → Cell a → Type 0
  IsCalm zero loop turns w = Unit {0}
  IsCalm (suc k) loop turns w =
      (w.is_stopping ≡ false)
      × Fits a loop w (queued w.inbox.queue)
      × ((w' : Cell a)
          → step_es a loop (turns k).0 (turns k).1 w ≡ returns (w', work)
          → IsCalm k loop turns w')
