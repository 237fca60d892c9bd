-- ===== src/Kernel/Delivery/Tests.antt =====
-- Runs of a delivery.
use trouper.Prelude.{
  ◌≢◌, ℕ, ◌≡◌, refl, inr, true, false, Option, none, some, [], ◌∷◌, arith, returns,
}
use trouper.Envelope.{Envelope, path}
use trouper.Inbox.{drop_old, block, Inbox}
use trouper.Kernel.Delivery.Hold.{Held, push_holding_block}
use trouper.Kernel.Delivery.Holding.{Settled, push_holding_block-Settled}
use trouper.Inbox.Wf.{IsWf}
use trouper.Kernel.Delivery.{Door, direct_push}
use trouper.Kernel.Delivery.Direct.{Delivers, direct_push-Delivers}
use trouper.Kernel.Delivery.Watermark.{fires_at, fires_at-crossings}

abbrev letter : ℕ → Envelope ℕ
letter n = record {
  schema_id = "acme/A";
  dest = path "me";
  from = none;
  reply_to = none;
  trace = record { trace_id = 0; causality_id = 0 };
  payload = n;
  recorded_origin = none;
}

abbrev full_door : Door ℕ
full_door = record {
  inbox = record {
    capacity = 2;
    policy = drop_old;
    next_offset = 2;
    cursor = 0;
    queue = (0, some (letter 1)) ∷ (1, some (letter 2)) ∷ [];
    opened = true;
  };
  has_watermark = true;
  watermark_high = 1;
  watermark_fired = false;
  dead_letters = [];
  backpressured = [];
  wakes = 0;
}

full_door-IsWf : IsWf (full_door.inbox)
full_door-IsWf = record {
  numbered = (refl, (refl, tt));
  ends = refl;
  fits = omega arith;
  room = omega arith;
}

direct_push-Delivers_example :
    (r : Door ℕ × Option (Envelope ℕ)) × (direct_push (letter 3) full_door ≡ returns r)
    × Delivers (letter 3) full_door r
direct_push-Delivers_example =
    direct_push-Delivers (letter 3) full_door full_door-IsWf (omega arith) (inr tt)

fires_at-crossings_example : fires_at 2 false (1 ∷ 3 ∷ 4 ∷ 2 ∷ 5 ∷ []) ≡ 3 ∷ 5 ∷ []
fires_at-crossings_example = fires_at-crossings 2 0 (1 ∷ 3 ∷ 4 ∷ 2 ∷ 5 ∷ [])

abbrev full_block : Inbox (Envelope ℕ)
full_block = record full_door.inbox { policy = block }

block_is_no_drop_old : block ≢ drop_old
block_is_no_drop_old = ground arith

push_holding_block-Settled_example :
    (h : Held ℕ) × (push_holding_block block (λ n i. i) (letter 3) full_block [] ≡ returns h)
    × Settled block (λ n i. i) 10000 (letter 3) full_block [] h
push_holding_block-Settled_example =
    push_holding_block-Settled block (λ n i. i) (letter 3) full_block [] (λ n i. refl)
      block_is_no_drop_old
