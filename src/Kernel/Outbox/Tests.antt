-- ===== src/Kernel/Outbox/Tests.antt =====
-- Runs of the emit gate.
use trouper.Prelude.{ℕ, none, List, [], ◌∷◌, All}
use trouper.Journal.{ActorPath, SchemaId}
use trouper.Envelope.{path, TraceCtx}
use trouper.Kernel.Outbox.{Intent, send, stop_self, flush_outbox}
use trouper.Kernel.Outbox.Gate.{IsDeclared, Gated, flush_outbox-IsDeclared}

abbrev no_trace : TraceCtx
no_trace = record { trace_id = 0; causality_id = 0 }

abbrev tell : SchemaId → ActorPath → Intent ℕ
tell s to = send (record {
  schema_id = s;
  dest = path to;
  from = none;
  reply_to = none;
  trace = no_trace;
  payload = 1;
  recorded_origin = none;
})

-- To another actor, declared and not, and to the actor itself.
abbrev three_sends : List (Intent ℕ)
three_sends = tell "a" "other" ∷ tell "b" "other" ∷ tell "b" "me" ∷ stop_self ∷ []

flush_outbox-IsDeclared_example :
    let f = flush_outbox ("a" ∷ []) "me" three_sends in
    All (IsDeclared ("a" ∷ []) "me") f.routed
    × Gated ("a" ∷ []) "me" three_sends f.routed f.dropped f.stop
flush_outbox-IsDeclared_example = flush_outbox-IsDeclared ("a" ∷ []) "me" three_sends
