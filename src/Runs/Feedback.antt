-- ===== src/Runs/Feedback.antt =====
-- The consumer that applies run.started and run.completed to the api's state
-- (internal/runs/status_consumer.go): the runs table, the metering log and the hub.
-- The outcome of each call outside the process is a field of the call's record. A handler returns
-- true for nil, upon which the bus acks the message, and false for an error, upon which it naks it
-- and delivers it again (internal/eventbus/nats.go).
pub mod Redelivery
use ai_lab.Prelude.{
  ℕ, ◌-◌, ◌^◌, min, Bool, true, false, not, Option, none, some, List, ◌==◌, if◌then◌else◌, Text,
}
use ai_lab.Events.{RunStatus, RunStarted, RunCompleted}
use ai_lab.Usage.{
  Kind, run_start, run_end, run_seconds, Quantity, count, duration, UsageTable, record_run,
}
use ai_lab.Runs.Rows.{
  succeeded, failed, timed_out, cancelled, mark_started, mark_completed, RunRow, Status,
}
use ai_lab.Runs.Hub.{Hub, RunEvent, EventKind, RawCall, broadcast}

-- The state behind Repo, Usage and Hub; the last two may be nil.
pub record Api : Type 0 where
  pub runs : List RunRow
  pub usage : Option UsageTable
  pub hub : Option Hub

-- mapStatus
unfoldable pub map_status : RunStatus → Status
map_status RunStatus.succeeded = succeeded
map_status RunStatus.failed = failed
map_status RunStatus.timed_out = timed_out
map_status RunStatus.cancelled = cancelled
map_status (RunStatus.other s) = failed

-- One delivery of run.started: what json.Unmarshal gives, the clock, and whether the UPDATE, the
-- metering INSERT and the publish on the raw bus succeed.
pub record StartedCall : Type 0 where
  pub event : Option RunStarted
  pub now : ℕ
  pub update_ok : Bool
  pub usage_ok : Bool
  pub raw : RawCall

pub record CompletedCall : Type 0 where
  pub event : Option RunCompleted
  pub now : ℕ
  pub update_ok : Bool
  pub end_ok : Bool
  pub seconds_ok : Bool
  pub raw : RawCall

abbrev pub at_or_now : ℕ → ℕ → ℕ
at_or_now at now = if at == 0 then now else at

-- c.Usage.RecordRun, whose error is dropped.
abbrev pub meter :
    Bool → Text → Text → Text → Kind → Quantity → ℕ → Option UsageTable → Option UsageTable
meter call_ok tenant_id agent_id run_id kind quantity at none = none
meter call_ok tenant_id agent_id run_id kind quantity at (some t) =
    some (if call_ok then record_run tenant_id agent_id run_id kind quantity at t else t)

abbrev pub notify : RawCall → Text → RunEvent → Option Hub → Option Hub
notify raw run_id ev none = none
notify raw run_id ev (some h) = some (broadcast raw run_id ev h)

apply_started : StartedCall → RunStarted → Api → Api × Bool
apply_started c ev s =
    let at = at_or_now ev.at c.now in
    if not c.update_ok then (s, false) else (
      record {
        runs = mark_started ev.run_id at s.runs;
        usage = meter c.usage_ok ev.tenant_id ev.agent_id ev.run_id run_start (count 1) at s.usage;
        hub =
            notify c.raw ev.run_id
              (record { kind = EventKind.run_started; start = some ev; end = none }) s.hub;
      },
      true,
    )

-- handleStarted
unfoldable pub handle_started : StartedCall → Api → Api × Bool
unfolding apply_started
handle_started c s = elim c.event [ none ↦ (s, false) | some ev ↦ apply_started c ev s ]

-- endedAt.Sub(StartedAt), which stops at the largest int64, with the negative ones made 0.
abbrev pub run_nanoseconds : ℕ → ℕ → ℕ
run_nanoseconds ended from = min (ended - from) (2 ^ 63 - 1)

apply_completed : CompletedCall → RunCompleted → Api → Api × Bool
apply_completed c ev s =
    let ended = at_or_now ev.ended_at c.now in
    let code : Option ℕ = if ev.exit_code == 0 then none else some ev.exit_code in
    if not c.update_ok then (s, false) else (
      record {
        runs =
            mark_completed ev.run_id (map_status ev.status) ev.outputs code ev.error ended s.runs;
        usage =
            meter c.seconds_ok ev.tenant_id ev.agent_id ev.run_id run_seconds
              (duration (run_nanoseconds ended ev.started_at)) ended
              (meter c.end_ok ev.tenant_id ev.agent_id ev.run_id run_end (count 1) ended s.usage);
        hub =
            notify c.raw ev.run_id
              (record { kind = EventKind.run_completed; start = none; end = some ev }) s.hub;
      },
      true,
    )

-- handleCompleted
unfoldable pub handle_completed : CompletedCall → Api → Api × Bool
unfolding apply_completed map_status
handle_completed c s = elim c.event [ none ↦ (s, false) | some ev ↦ apply_completed c ev s ]
