-- ===== src/Envelope.antt =====
-- src/envelope.rs: addresses, traces and envelopes. `P` is the payload; an id that a crate mints is a
-- number.
use trouper.Prelude.{ℕ, Option, none, some}
use trouper.Journal.{ActorPath, SchemaId, SeqNo}

pub data Address : Type 0 where
  path : ActorPath → Address
  slot : ℕ → Address
  schema : SchemaId → Address

pub record TraceCtx : Type 0 where
  pub trace_id : ℕ
  pub causality_id : ℕ

-- The same conversation, with the fresh causality id that was minted for the hop.
unfoldable pub caused : ℕ → TraceCtx → TraceCtx
caused fresh trace = record trace { causality_id = fresh }

pub record RecordedOrigin : Type 0 where
  pub journal : ActorPath
  pub seq : SeqNo

pub record Envelope (P : Type 0) : Type 0 where
  pub schema_id : SchemaId
  pub dest : Address
  pub from : Option ActorPath
  pub reply_to : Option Address
  pub trace : TraceCtx
  pub payload : P
  pub recorded_origin : Option RecordedOrigin

module _ {P : Type 0} where
  unfoldable pub raw : SchemaId → Address → P → TraceCtx → Envelope P
  raw schema_id dest payload trace = record {
    schema_id = schema_id;
    dest = dest;
    from = none;
    reply_to = none;
    trace = trace;
    payload = payload;
    recorded_origin = none;
  }

  unfoldable pub with_from : ActorPath → Envelope P → Envelope P
  with_from sender envelope = record envelope { from = some sender }

  unfoldable pub with_recorded_origin : ActorPath → SeqNo → Envelope P → Envelope P
  with_recorded_origin source seq envelope = record envelope {
    recorded_origin = some (record { journal = source; seq = seq });
  }
