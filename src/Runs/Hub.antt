-- ===== src/Runs/Hub.antt =====
-- The fan-out of run events to the listeners of one api process (internal/runs/events_pubsub.go).
-- The map of subscriptions is a list in the order of the ids; channels that `cancel` has closed
-- leave it and are kept aside, since their reader may still drain them. The bus, if there is one,
-- is the list of what was published on it. `mu` makes each method one step.
pub mod Delivery
pub mod Validity
use ai_lab.Prelude.{
  ℕ, ◌+◌, Bool, not, ◌&&◌, Option, none, some, List, [], ◌∷◌, ◌++◌, map, ltb, ◌==◌, if◌then◌else◌,
  length, drop, Text, txt, same, select, true, false,
}
use ai_lab.Events.{RunStarted, RunCompleted}

pub data EventKind : Type 0 where
  run_started run_completed : EventKind
  other_kind : Text → EventKind

pub record RunEvent : Type 0 where
  pub kind : EventKind
  pub start : Option RunStarted
  pub end : Option RunCompleted

pub record Subscription : Type 0 where
  pub id : ℕ
  pub run_id : Text
  pub buffer : List RunEvent

pub record Hub : Type 0 where
  pub has_bus : Bool
  pub next : ℕ
  pub subs : List Subscription
  pub closed : List Subscription
  pub raw : List (Text × Text)

-- make(chan RunEvent, 32)
abbrev pub capacity : ℕ
capacity = 32

abbrev pub run_events_prefix : Text
run_events_prefix = txt "run.events."

-- NewHub
abbrev pub new_hub : Bool → Hub
new_hub has_bus = record { has_bus = has_bus; next = 0; subs = []; closed = []; raw = [] }

-- Subscribe: the new state and the id behind the channel and the cancel func.
unfoldable pub subscribe : Text → Hub → Hub × ℕ
subscribe run_id h = (
  record h {
    next = h.next + 1;
    subs = h.subs ++ record { id = h.next; run_id = run_id; buffer = [] } ∷ [];
  },
  h.next,
)

abbrev pub has_id : ℕ → Subscription → Bool
has_id id s = s.id == id

abbrev pub lacks_id : ℕ → Subscription → Bool
lacks_id id s = not (s.id == id)

-- The cancel func that Subscribe returns: close and delete if the id is still there.
unfoldable pub cancel : ℕ → Hub → Hub
cancel id h = record h {
  subs = select (lacks_id id) h.subs;
  closed = h.closed ++ select (has_id id) h.subs;
}

abbrev pub offer : Text → RunEvent → Subscription → Subscription
offer run_id ev s =
    if same s.run_id run_id && ltb (length s.buffer) capacity
    then record s { buffer = s.buffer ++ ev ∷ [] }
    else s

-- deliverLocal: a full buffer drops the event.
unfoldable pub deliver_local : Text → RunEvent → Hub → Hub
deliver_local run_id ev h = record h { subs = map (offer run_id ev) h.subs }

-- strings.TrimPrefix(subject, runEventsPrefix)
abbrev pub trim_prefix : Text → Text → Text
trim_prefix [] s = s
trim_prefix (c ∷ p) [] = []
trim_prefix (c ∷ p) (d ∷ s) = if c == d then trim_prefix p s else d ∷ s

-- The publication of an event: json.Marshal, and whether PublishRaw succeeds.
pub record RawCall : Type 0 where
  pub marshal : RunEvent → Option Text
  pub raw_ok : Bool

-- PublishRaw of a payload, if there is one. A failure is only logged.
abbrev pub publish_raw : Bool → Text → Option Text → Hub → Hub
publish_raw raw_ok subject none h = h
publish_raw false subject (some payload) h = h
publish_raw true subject (some payload) h = record h { raw = h.raw ++ (subject, payload) ∷ [] }

abbrev pub broadcast_over : Bool → RawCall → Text → RunEvent → Hub → Hub
broadcast_over false c run_id ev h = deliver_local run_id ev h
broadcast_over true c run_id ev h =
    publish_raw c.raw_ok (run_events_prefix ++ run_id) (c.marshal ev) h

-- Broadcast
unfoldable pub broadcast : RawCall → Text → RunEvent → Hub → Hub
broadcast c run_id ev h = broadcast_over h.has_bus c run_id ev h

abbrev pub deliver_decoded : Text → Option RunEvent → Hub → Hub
deliver_decoded subject none h = h
deliver_decoded subject (some ev) h = deliver_local (trim_prefix run_events_prefix subject) ev h

-- deliverFromBus, given json.Unmarshal
unfoldable pub deliver_from_bus : (Text → Option RunEvent) → Text → Text → Hub → Hub
deliver_from_bus unmarshal subject payload h = deliver_decoded subject (unmarshal payload) h

-- The reader's side of the channel of a subscription: the first event of the buffer.
abbrev pub head_of : ℕ → List Subscription → Option RunEvent
head_of id [] = none
head_of id (s ∷ ss) =
    let rest = head_of id ss in
    if s.id == id then (elim s.buffer [ [] ↦ none | e ∷ es ↦ some e ]) else rest

abbrev pub pop : ℕ → Subscription → Subscription
pop id s = if s.id == id then record s { buffer = drop 1 s.buffer } else s

unfoldable pub receive : ℕ → Hub → Hub × Option RunEvent
receive id h = (record h { subs = map (pop id) h.subs }, head_of id h.subs)
