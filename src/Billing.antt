-- ===== src/Billing.antt =====
-- Shipping of the metering log to a billing destination (internal/billing/shipper.go, the Event of
-- internal/billing/orb.go), with the janitor's pruning of the log (gcUsageEvents of
-- cmd/janitor/main.go). A tick is one pass of the loop of Run; the destination is an oracle.
pub mod Batches
pub mod Shipping
pub mod Coverage
pub mod Late
pub mod Progress
use ai_lab.Prelude.{
  batch, last_key, ℕ, ◌-◌, min, Bool, ◌&&◌, Option, none, some, List, [], ◌∷◌, ◌++◌, map, ltb, leb,
  if◌then◌else◌, take, Text, is_empty, same, select, lookup,
}
use ai_lab.Usage.{Kind, Quantity, UsageRow, UsageTable}

-- Properties are the entries of the map, the two ids only where they are not empty. The idempotency
-- key dest/id is kept as its two parts.
pub record Event : Type 0 where
  pub event_name : Kind
  pub external_customer : Text
  pub timestamp : ℕ
  pub idempotency_key : Text × ℕ
  pub quantity : Quantity
  pub agent_id : Option Text
  pub run_id : Option Text

pub record Checkpoint : Type 0 where
  pub last_event_id : ℕ
  pub last_shipped_at : Option ℕ

-- The two tables, and what the destination has accepted, in order.
pub record State : Type 0 where
  pub usage : UsageTable
  pub checkpoints : List (Text × Checkpoint)
  pub shipped : List Event

-- The SELECT of tick.
unfoldable pub read_batch : ℕ → ℕ → List UsageRow → List UsageRow
read_batch = batch (λ r. r.id)

-- COALESCE(…, '') and the test for the empty string
abbrev pub present : Option Text → Option Text
present none = none
present (some s) = if is_empty s then none else some s

unfoldable pub event_of : Text → UsageRow → Event
event_of dest r = record {
  event_name = r.kind;
  external_customer = r.tenant_id;
  timestamp = r.recorded_at;
  idempotency_key = (dest, r.id);
  quantity = r.quantity;
  agent_id = present r.agent_id;
  run_id = present r.run_id;
}

-- batch[len(batch)-1].ID of a batch that is not empty
abbrev pub last_row_id : UsageRow → List UsageRow → ℕ
last_row_id = last_key (λ u. u.id)

-- The UPDATE of the checkpoint, with its guard.
unfoldable pub advance : Text → ℕ → ℕ → List (Text × Checkpoint) → List (Text × Checkpoint)
advance dest new_id now [] = []
advance dest new_id now ((d, c) ∷ cs) =
    let rest = advance dest new_id now cs in
    if same d dest && ltb c.last_event_id new_id
    then (d, record { last_event_id = new_id; last_shipped_at = some now }) ∷ rest
    else (d, c) ∷ rest

-- How the calls of a tick go: an error of the reading, of Ship, of the UPDATE. A Ship that fails
-- may still have been taken in by the destination.
pub record Weather : Type 0 where
  pub read_error : Option Text
  pub ship_error : Option Text
  pub taken_in_anyway : Bool
  pub advance_error : Option Text
  pub now : ℕ

pub data TickError : Type 0 where
  checkpoint_read : TickError
  query ship advance_checkpoint : Text → TickError

abbrev pub add_shipped : List Event → State → State
add_shipped events s = record s { shipped = s.shipped ++ events }

-- tick after the batch is read.
unfoldable pub ship_batch : Text → Weather → List UsageRow → State → State × Option TickError
unfolding advance event_of
ship_batch dest x [] s = (s, none)
ship_batch dest x (r ∷ rs) s =
    let events = map (event_of dest) (r ∷ rs) in
    elim x.ship_error [
      | some e ↦ (if x.taken_in_anyway then add_shipped events s else s, some (ship e))
      | none ↦ elim x.advance_error [
        | some e ↦ (add_shipped events s, some (advance_checkpoint e))
        | none ↦ (
          record (add_shipped events s) {
            checkpoints = advance dest (last_row_id r rs) x.now s.checkpoints;
          },
          none,
        )
      ]
    ]

unfoldable pub tick : Text → ℕ → Weather → State → State × Option TickError
unfolding read_batch ship_batch
tick dest batch_size x s = elim (lookup dest s.checkpoints) [
  | none ↦ (s, some checkpoint_read)
  | some c ↦ elim x.read_error [
    | some e ↦ (s, some (query e))
    | none ↦ ship_batch dest x (read_batch c.last_event_id batch_size s.usage.rows) s
  ]
]

-- COALESCE(MIN(last_event_id), 0) over the destinations
abbrev pub least : List (Text × Checkpoint) → ℕ
least [] = 0
least ((d, c) ∷ []) = c.last_event_id
least ((d, c) ∷ e ∷ cs) = min c.last_event_id (least (e ∷ cs))

-- DELETE FROM usage_events, the rows that stay
abbrev pub prune : ℕ → ℕ → List UsageRow → List UsageRow
prune cutoff shipped_to [] = []
prune cutoff shipped_to (r ∷ rs) =
    let rest = prune cutoff shipped_to rs in
    if ltb r.recorded_at cutoff && leb r.id shipped_to then rest else r ∷ rest

-- gcUsageEvents. The clock is past the TTL, so the cutoff does not stop at 0.
unfoldable pub gc_usage_events : ℕ → ℕ → State → State
gc_usage_events now usage_ttl s = record s {
  usage = record s.usage { rows = prune (now - usage_ttl) (least s.checkpoints) s.usage.rows };
}
