-- ===== src/Kernel/Step/Tests.antt =====
-- Steps of the counter actor.
use trouper.Prelude.{
  ℕ, ◌≡◌, refl, true, false, Option, none, some, List, [], ◌∷◌, arith, returns, IfReturns,
}
use trouper.Journal.{SchemaId, holds_origin, events_of}
use trouper.Actor.Tests.{added, counter, two_events, two_events-IsDense}
use trouper.Envelope.{path, TraceCtx, RecordedOrigin, Envelope}
use trouper.Inbox.{block, claim_up_to, restore_claims}
use trouper.Inbox.Claims.{IsSettled, batch_of}
use trouper.Kernel.Snapshot.{messages}
use trouper.Kernel.Decide.{Step, work, decided, poisoned, CommandEntry, Cell, EsLoop, same_origin}
use trouper.Kernel.Step.{step_es, commit_step}
use trouper.Kernel.Step.Crash.{IsRolledBack, claimed_cell, step_es-IsRolledBack}
use trouper.Kernel.Step.Live.{IsLive, step_es-IsLive}
use trouper.Kernel.Step.Commit.{Progress, step_es-Progress}
use trouper.Kernel.Step.Stamped.{commit_step-stamped_lost}

abbrev pub root_trace : TraceCtx
root_trace = record { trace_id = 0; causality_id = 0 }

abbrev pub mail : SchemaId → Option RecordedOrigin → Envelope ℕ
mail s origin = record {
  schema_id = s;
  dest = path "counter";
  from = none;
  reply_to = none;
  trace = root_trace;
  payload = 3;
  recorded_origin = origin;
}

-- "Add" records its payload; "Boom" panics.
abbrev pub add_entry : CommandEntry counter
add_entry = record { command = "Add"; dispatch = λ st e. decided (added e.payload ∷ []) [] }

abbrev pub boom_entry : CommandEntry counter
boom_entry = record { command = "Boom"; dispatch = λ st e. poisoned }

abbrev pub counter_loop : EsLoop counter
counter_loop = record {
  own_path = "counter";
  step_batch = 2;
  command_entries = add_entry ∷ boom_entry ∷ [];
  declared_emits = "acme/Added/v1" ∷ [];
  cadence = messages 3;
  is_projector = false;
  root = root_trace;
}

abbrev pub cell_with : List (ℕ × Option (Envelope ℕ)) → Cell counter
cell_with queue = record {
  inbox = record {
    capacity = 8;
    policy = block;
    next_offset = 7;
    cursor = 4;
    queue = queue;
    opened = true;
  };
  live = 12;
  journal = two_events;
  next_ingest = 2;
  last_event_seq = 1;
  is_crashed = false;
  is_stopping = false;
  dead_letters = [];
  effects = [];
  broadcasts = [];
}

abbrev three_mails : List (Envelope ℕ)
three_mails = mail "Add" none ∷ mail "Lost" none ∷ mail "Add" none ∷ []

abbrev busy : Cell counter
busy =
    cell_with (
      (4, some (mail "Add" none)) ∷ (5, some (mail "Lost" none)) ∷ (6, some (mail "Add" none)) ∷ [])

busy-IsSettled : IsSettled (busy.inbox) three_mails
busy-IsSettled = record { holds = refl; ends = omega arith; fits = omega arith }

busy-IsLive : IsLive counter 0 busy
busy-IsLive = record { folded = refl; is_dense = two_events-IsDense }

step_es-IsLive_example :
    IfReturns
      (λ (r : Cell counter × Step). IsLive counter 0 r.0)
      (step_es counter counter_loop false 40 busy)
unfolding step_es
step_es-IsLive_example =
    step_es-IsLive counter 0 counter_loop false 40 busy three_mails busy-IsSettled busy-IsLive refl
      (omega arith) (omega arith)

step_es-Progress_example :
    (r : Cell counter × Step) × (step_es counter counter_loop false 40 busy ≡ returns r)
    × Progress counter 2 three_mails busy r
unfolding step_es
step_es-Progress_example =
    step_es-Progress counter counter_loop false 40 busy three_mails busy-IsSettled refl
      two_events-IsDense refl (omega arith) (omega arith) (omega arith)

abbrev pub booming : Cell counter
booming =
    cell_with (
      (4, some (mail "Add" none)) ∷ (5, some (mail "Boom" none)) ∷ (6, some (mail "Add" none)) ∷ [])

abbrev pub booming_mails : List (Envelope ℕ)
booming_mails = mail "Add" none ∷ mail "Boom" none ∷ mail "Add" none ∷ []

pub booming-IsSettled : IsSettled (booming.inbox) booming_mails
booming-IsSettled = record { holds = refl; ends = omega arith; fits = omega arith }

step_es-IsRolledBack_example : IsRolledBack counter booming (record booming { is_crashed = true })
unfolding step_es claim_up_to restore_claims
step_es-IsRolledBack_example =
    step_es-IsRolledBack counter counter_loop false 40 booming
      (record booming { is_crashed = true }) booming_mails booming-IsSettled refl refl

abbrev fact : RecordedOrigin
fact = record { journal = "orders"; seq = 9 }

abbrev stamped_mails : List (Envelope ℕ)
stamped_mails = mail "Add" (some fact) ∷ mail "Add" (some fact) ∷ mail "Add" none ∷ []

abbrev stamped : Cell counter
stamped = cell_with (
    (4, some (mail "Add" (some fact)))
    ∷ (5, some (mail "Add" (some fact)))
    ∷ (6, some (mail "Add" none))
    ∷ [])

stamped-IsSettled : IsSettled (stamped.inbox) stamped_mails
stamped-IsSettled = record { holds = refl; ends = omega arith; fits = omega arith }

commit_step-stamped_lost_example :
    (w' : Cell counter) × (commit_step counter counter_loop false 40
        (batch_of 2 4 stamped_mails)
        ([] ∷ [] ∷ [])
        (added 3 ∷ added 3 ∷ [])
        (claimed_cell counter 2 stamped_mails [] stamped)
      ≡ returns (w', work))
    × IsSettled (w'.inbox) (mail "Add" none ∷ [])
    × (w'.live ≡ 12)
    × (events_of w'.journal.entries ≡ added 5 ∷ added 7 ∷ added 3 ∷ [])
unfolding same_origin holds_origin
commit_step-stamped_lost_example =
    commit_step-stamped_lost counter counter_loop 40 2 stamped stamped_mails fact ([] ∷ [] ∷ [])
      (added 3) (added 3) [] stamped-IsSettled refl refl
