-- ===== src/Examples/Runs.antt =====
-- Concrete rows, hubs and messages for internal/runs and internal/usage.
use ai_lab.Prelude.{
  ℕ, ◌≤◌, ◌≡◌, refl, true, none, some, List, [], ◌∷◌, map, arith, length, All, Text, txt, Rows,
  IsDescending, subst, Option, if◌then◌else◌, same,
}
use ai_lab.Events.{RunStatus, RunStarted, RunCompleted}
use ai_lab.Usage.{UsageTable}
use ai_lab.Usage.Unique.{IsValid as IsUnique}
use ai_lab.Runs.Rows.{Status, RunRow, new_run, list_for_agent, mark_started, mark_completed}
use ai_lab.Runs.Rows.Lifecycle.{
  Write, start, complete, write_all, Follows, write_all-Follows, forget_start, start_complete_order,
}
use ai_lab.Runs.Rows.Queries.{list_for_agent_page}
use ai_lab.Runs.Hub.{
  EventKind, RunEvent, Hub, new_hub, subscribe, broadcast, deliver_from_bus, RawCall,
}
use ai_lab.Runs.Hub.Validity.{
  IsValid as IsValidHub, joined, left, sent, steps, steps-IsValid, new_hub-IsValid,
}
use ai_lab.Runs.Hub.Delivery.{broadcast-deliver_from_bus, waiting}
use ai_lab.Runs.Feedback.{Api, StartedCall, CompletedCall, handle_completed}
use ai_lab.Runs.Feedback.Redelivery.{usage_rows, handle_completed_twice}

abbrev run_1 : Text
run_1 = txt "run1"

abbrev tenant_1 : Text
tenant_1 = txt "t1"

abbrev agent_1 : Text
agent_1 = txt "a1"

abbrev one_row : List RunRow
one_row = new_run run_1 5 tenant_1 agent_1 none [] ∷ []

abbrev start_and_end : List Write
start_and_end = start run_1 7 ∷ complete run_1 Status.succeeded none none [] 9 ∷ start run_1 8 ∷ []

write_all-Follows_example : Rows Follows one_row (write_all start_and_end one_row)
write_all-Follows_example = write_all-Follows start_and_end one_row (tt, (refl, (tt, tt)))

start_complete_order_example :
    map forget_start
      (mark_completed run_1 Status.succeeded none none [] 9 (mark_started run_1 7 one_row))
    ≡ map forget_start
        (mark_started run_1 7 (mark_completed run_1 Status.succeeded none none [] 9 one_row))
start_complete_order_example =
    start_complete_order run_1 7 Status.succeeded none none [] 9 one_row refl

list_for_agent_page_example :
    let page = list_for_agent tenant_1 agent_1 (some 500) one_row in
    All (λ r. (r.tenant_id ≡ tenant_1) × (r.agent_id ≡ agent_1)) page
    × (length page ≤ 200)
    × IsDescending (λ r. r.created_at) page
list_for_agent_page_example = list_for_agent_page tenant_1 agent_1 (some 500) one_row

abbrev no_usage : UsageTable
no_usage = record { rows = []; next_id = 1 }

no_usage-IsUnique : IsUnique no_usage
no_usage-IsUnique = record { unique = λ r k. omega arith; below_next = tt }

abbrev started_1 : RunStarted
started_1 = record { tenant_id = tenant_1; agent_id = agent_1; run_id = run_1; at = 7 }

abbrev completed_1 : RunCompleted
completed_1 = record {
  tenant_id = tenant_1;
  agent_id = agent_1;
  run_id = run_1;
  status = RunStatus.failed;
  exit_code = 1;
  outputs = none;
  error = txt "job failed";
  started_at = 7;
  ended_at = 0;
}

abbrev started_event : RunEvent
started_event = record { kind = EventKind.run_started; start = some started_1; end = none }

-- An encoder of the two kinds of events without contents, one byte each, and its decoder.
abbrev bare : EventKind → RunEvent
bare kind = record { kind = kind; start = none; end = none }

abbrev write_1 : EventKind → Option RunStarted → Option RunCompleted → Option Text
write_1 EventKind.run_started none none = some (txt "s")
write_1 EventKind.run_completed none none = some (txt "c")
write_1 _ _ _ = none

abbrev read_1 : Text → Option RunEvent
read_1 p =
    if same p (txt "s")
    then some (bare EventKind.run_started)
    else if same p (txt "c")
    then some (bare EventKind.run_completed)
    else none

reads_1 :
    (k : EventKind) (s : Option RunStarted) (e : Option RunCompleted) (p : Text)
    → write_1 k s e ≡ some p
    → read_1 p ≡ some (record { kind = k; start = s; end = e })
unfolding same
reads_1 EventKind.run_started none none p h =
    let q : txt "s" ≡ p = cc in subst (λ z. read_1 z ≡ some (bare EventKind.run_started)) q refl
reads_1 EventKind.run_completed none none p h =
    let q : txt "c" ≡ p = cc in subst (λ z. read_1 z ≡ some (bare EventKind.run_completed)) q refl
reads_1 EventKind.run_started none (some e) p h = absurd cc
reads_1 EventKind.run_started (some s) e p h = absurd cc
reads_1 EventKind.run_completed none (some e) p h = absurd cc
reads_1 EventKind.run_completed (some s) e p h = absurd cc
reads_1 (EventKind.other_kind k) s e p h = absurd cc

abbrev json_1 : RawCall
json_1 = record { marshal = λ e. write_1 e.kind e.start e.end; raw_ok = true }

abbrev hub_1 : Hub
hub_1 = (subscribe run_1 (new_hub true)).0

steps-IsValid_example :
    IsValidHub
      (steps (joined run_1 ∷ sent json_1 run_1 started_event ∷ left 0 ∷ left 0 ∷ []) (new_hub true))
steps-IsValid_example =
    steps-IsValid (joined run_1 ∷ sent json_1 run_1 started_event ∷ left 0 ∷ left 0 ∷ [])
      (new_hub true) (new_hub-IsValid true)

broadcast-deliver_from_bus_example :
    (subject : Text) × ((broadcast json_1 run_1 (bare EventKind.run_started) (new_hub true)).raw
      ≡ (subject, txt "s") ∷ [])
    × ((broadcast json_1 run_1 (bare EventKind.run_started) (new_hub true)).subs ≡ [])
    × (waiting 0 (deliver_from_bus read_1 subject (txt "s") hub_1).subs
        ≡ some (bare EventKind.run_started ∷ []))
unfolding subscribe same
broadcast-deliver_from_bus_example =
    broadcast-deliver_from_bus json_1 read_1 run_1 (bare EventKind.run_started) (txt "s")
      (new_hub true) hub_1 0 [] (λ e p h. reads_1 e.kind e.start e.end p h) refl refl refl refl

abbrev api_1 : Api
api_1 = record { runs = one_row; usage = some no_usage; hub = some hub_1 }

abbrev started_call : ℕ → StartedCall
started_call now = record {
  event = some started_1;
  now = now;
  update_ok = true;
  usage_ok = true;
  raw = json_1;
}

abbrev completed_call : ℕ → CompletedCall
completed_call now = record {
  event = some completed_1;
  now = now;
  update_ok = true;
  end_ok = true;
  seconds_ok = true;
  raw = json_1;
}

handle_completed_twice_example :
    let once = (handle_completed (completed_call 9) api_1).0 in
    let twice = (handle_completed (completed_call 11) once).0 in
    (twice.runs ≡ once.runs) × (usage_rows twice.usage ≡ usage_rows once.usage)
handle_completed_twice_example =
    handle_completed_twice completed_1 9 11 true true json_1 json_1 api_1
