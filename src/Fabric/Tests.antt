-- ===== src/Fabric/Tests.antt =====
-- Runs of the fabric: orders are partitioned by customer, totals are read per customer.
use trouper.Prelude.{
  Option, List, String, ◌≡◌, refl, ◌⊎◌, inr, true, false, none, some, [], ◌∷◌, arith, str_eq,
  if◌then◌else◌, returns, IfReturns, NoDup,
}
use trouper.Journal.{ActorPath}
use trouper.Envelope.{path, Envelope}
use trouper.Inbox.{block}
use trouper.Kernel.Delivery.{Door}
use trouper.Registry.{round_robin, handlers_of}
use trouper.Registry.Paths.{is_empty_text, member_path, is_member_key, owns}
use trouper.Registry.Slots.{Slot, set_slot, resolve, is_registered}
use trouper.Registry.Sets.{
  PartitionSpec, ProjectorSetSpec, projector_set_owning, is_member, projector_sets_consuming,
}
use trouper.Registry.Sets.Owned.{projector_set_owning-public}
use trouper.Fabric.Keys.{
  Json, AnyPayload, json, extract_key, described_key, extract_shard_key, field,
}
use trouper.Fabric.Keys.Reads.{extract_key-nonempty}
use trouper.Schema.{SchemaDef, by_id, event, new_manifest}
use trouper.Fabric.{Application, Fabric, Endpoint, store_endpoint}
use trouper.Fabric.Rules.{apply_rules}
use trouper.Fabric.Route.{partition_at, Routed, arrived, undelivered, route_path, route_envelope}
use trouper.Fabric.Route.Partitions.{
  IsReady, Holds, IsPartitionSend, activated, route_path-partition, route_path-closed_entity,
}
use trouper.Fabric.Route.Letters.{Accounts, KeepsLetters, route_envelope-Accounts}
use trouper.Fabric.Broadcast.{broadcast}
use trouper.Fabric.Broadcast.Once.{is_plain, IsCopied, broadcast-plain}

abbrev quiet_door : Door String
quiet_door = record {
  inbox = record {
    capacity = 4;
    policy = block;
    next_offset = 0;
    cursor = 0;
    queue = [];
    opened = true;
  };
  has_watermark = false;
  watermark_high = 0;
  watermark_fired = false;
  dead_letters = [];
  backpressured = [];
  wakes = 0;
}

abbrev quiet : Endpoint String
quiet = record { door = quiet_door; channel = []; is_closed = false }

abbrev drained : Endpoint String
drained = record {
  door = record quiet_door { inbox = record quiet_door.inbox { opened = false } };
  channel = [];
  is_closed = true;
}

abbrev slot_of : Endpoint String → Slot (Endpoint String)
slot_of ep = record { manifest = new_manifest; endpoint = some ep; inbox_policy = block }

abbrev orders : PartitionSpec
orders = record { public = "orders"; key_field = "customer" }

abbrev totals : ProjectorSetSpec
totals = record { public = "totals"; key_field = "customer"; consumed = "Ordered" ∷ [] }

abbrev spawn_quiet : ActorPath → Fabric String → Fabric String
spawn_quiet p f = record f { slots = set_slot p (some (slot_of quiet)) f.slots }

-- The payload is the customer.
abbrev shop : Application String
shop = record {
  extract = λ table e name. some e.payload;
  spawn_entity = λ spec p key f. spawn_quiet p f;
  spawn_projector = λ spec p key f. spawn_quiet p f;
}

abbrev shop_fabric : Fabric String
shop_fabric = record {
  routing = record {
    routes =
        λ s. if str_eq s "Ordered" then some (round_robin ("mail" ∷ "totals/ann" ∷ [])) else none;
    route_cursor = 0;
  };
  slots = λ p. if str_eq p "mail" then some (slot_of quiet) else none;
  table = [];
  partitions = orders ∷ [];
  projector_sets = totals ∷ [];
  rules = [];
  is_shutting_down = false;
  dead_letters = [];
}

abbrev order_of : String → Envelope String
order_of customer = record {
  schema_id = "Ordered";
  dest = path "orders";
  from = none;
  reply_to = none;
  trace = record { trace_id = 1; causality_id = 1 };
  payload = customer;
  recorded_origin = none;
}

quiet-IsReady : IsReady quiet
quiet-IsReady = record {
  is_wf = record { numbered = tt; ends = refl; fits = omega arith; room = omega arith };
  has_offsets = omega arith;
  evicts_mail = inr tt;
  is_open = refl;
}

orders_send : IsPartitionSend shop (order_of "ann") "orders" orders "ann" shop_fabric
unfolding partition_at
orders_send = record { is_up = refl; is_partition = refl; has_key = refl }

no_rules : apply_rules shop_fabric.rules (order_of "ann") "orders" ≡ (none, none)
unfolding apply_rules
no_rules = refl

starts :
    resolve "orders/ann" (activated shop orders "orders/ann" "ann" shop_fabric).slots ≡ some quiet
unfolding resolve is_registered
starts = refl

route_path-partition_example :
    (ep : Endpoint String) × (route_path shop 7 (order_of "ann") "orders" shop_fabric
      ≡ returns (
        store_endpoint "orders/ann" ep (activated shop orders "orders/ann" "ann" shop_fabric),
        arrived "orders/ann",
      ))
    × Holds (order_of "ann") quiet ep
unfolding member_path
route_path-partition_example =
    route_path-partition shop 7 (order_of "ann") "orders" none orders "ann" shop_fabric quiet
      no_rules orders_send starts quiet-IsReady

-- The same with an entity whose inbox and channel are closed.
abbrev drained_fabric : Fabric String
drained_fabric = record shop_fabric {
  slots = set_slot "orders/ann" (some (slot_of drained)) shop_fabric.slots;
}

drained_send : IsPartitionSend shop (order_of "ann") "orders" orders "ann" drained_fabric
unfolding partition_at
drained_send = record { is_up = refl; is_partition = refl; has_key = refl }

is_drained : resolve "orders/ann" drained_fabric.slots ≡ some drained
unfolding resolve
is_drained = refl

no_drained_rules : apply_rules drained_fabric.rules (order_of "ann") "orders" ≡ (none, none)
unfolding apply_rules
no_drained_rules = refl

route_path-closed_entity_example :
    (g : Fabric String) × (r : Routed String) × (route_path shop 7
        (order_of "ann")
        "orders"
        drained_fabric
      ≡ returns (g, r))
    × ((r ≡ undelivered (order_of "ann")) ⊎ (r ≡ arrived "orders/ann/ann"))
unfolding member_path
route_path-closed_entity_example =
    route_path-closed_entity shop 7 (order_of "ann") "orders" orders "ann" drained_fabric drained
      no_drained_rules drained_send is_drained refl refl

shop_KeepsLetters : KeepsLetters shop
shop_KeepsLetters = record { by_entity = λ spec p key f. refl; by_projector = λ spec p key f. refl }

route_envelope-Accounts_example :
    IfReturns
      (Accounts (order_of "ann") drained_fabric)
      (route_envelope shop 7 (order_of "ann") drained_fabric)
route_envelope-Accounts_example =
    route_envelope-Accounts shop shop_KeepsLetters 7 (order_of "ann") drained_fabric

ann_key : is_member_key "ann" ≡ true
unfolding is_member_key
ann_key = refl

projector_set_owning-public_example :
    (spec : ProjectorSetSpec) × (projector_set_owning "totals/ann" (totals ∷ []) ≡ some spec)
    × (spec.public ≡ "totals")
unfolding member_path
projector_set_owning-public_example =
    projector_set_owning-public (totals ∷ []) "totals" "ann" refl ann_key

-- Nobody keeps totals of what is shipped.
abbrev shipping : Fabric String
shipping = record shop_fabric {
  routing = record {
    routes = λ s. if str_eq s "Shipped" then some (round_robin ("mail" ∷ "gone" ∷ [])) else none;
    route_cursor = 0;
  };
}

abbrev shipment : Envelope String
shipment = record (order_of "ann") { schema_id = "Shipped" }

shipped_once : NoDup (handlers_of "Shipped" shipping.routing)
unfolding handlers_of
shipped_once = (refl, (refl, tt))

nobody_consumes : projector_sets_consuming "Shipped" shipping.projector_sets ≡ []
unfolding projector_sets_consuming
nobody_consumes = refl

mail_is_plain : is_plain "Shipped" shipping "mail" ≡ true
unfolding handlers_of resolve is_member projector_set_owning owns
mail_is_plain = refl

broadcast-plain_example :
    IfReturns
      (λ (g : Fabric String).
        (q : ActorPath)
        → ((is_plain "Shipped" shipping q ≡ true) × IsCopied shipment q shipping g)
          ⊎ ((is_plain "Shipped" shipping q ≡ false)
              × (resolve q g.slots ≡ resolve q shipping.slots)))
      (broadcast shop 7 "Shipped" shipment shipping)
broadcast-plain_example =
    broadcast-plain shop 7 "Shipped" shipment shipping shipped_once nobody_consumes

-- Objects of strings for JSON.
data Sample : Type 0 where
  text : String → Sample
  object : List (String × String) → Sample

abbrev lookup_text : String → List (String × String) → Option Sample
lookup_text name [] = none
lookup_text name ((n, v) ∷ rest) = if str_eq n name then some (text v) else lookup_text name rest

abbrev sample_get : Sample → String → Option Sample
sample_get (text s) name = none
sample_get (object fields) name = lookup_text name fields

abbrev sample_str : Sample → Option String
sample_str (text s) = some s
sample_str (object fields) = none

abbrev samples : Json
samples = record {
  Value = Sample;
  get = sample_get;
  as_str = sample_str;
  i64_text = λ v. none;
  f64_text = λ v. none;
  bool_text = λ v. none;
  number_text = λ v. none;
  bytes_value = λ b. none;
  default_value = text "";
}

abbrev ordered : SchemaDef
ordered = record { name = "Ordered"; kind = event; fields = []; description = none }

abbrev json_order : Envelope (AnyPayload samples)
json_order = record {
  schema_id = "Ordered";
  dest = path "orders";
  from = none;
  reply_to = none;
  trace = record { trace_id = 1; causality_id = 1 };
  payload = json (object (("customer", "ann") ∷ []));
  recorded_origin = none;
}

knows_ordered : by_id "Ordered" (ordered ∷ []) ≡ some ordered
unfolding by_id
knows_ordered = refl

key_is_ann : extract_key samples (ordered ∷ []) json_order "customer" ≡ some "ann"
unfolding extract_key described_key extract_shard_key field by_id
key_is_ann = refl

extract_key-nonempty_example : is_empty_text "ann" ≡ false
extract_key-nonempty_example =
    extract_key-nonempty samples (ordered ∷ []) json_order "customer" ordered "ann" knows_ordered
      key_is_ann
