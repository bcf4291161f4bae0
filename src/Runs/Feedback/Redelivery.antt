-- ===== src/Runs/Feedback/Redelivery.antt =====
-- At-least-once delivery of run.started and run.completed is safe for what is stored.
use ai_lab.Prelude.{
  ◌≡◌, true, false, Option, none, some, List, [], arith, ℕ, refl, Bool, Text, ◌∙◌, ◌==◌,
  if◌then◌else◌, any,
}
use ai_lab.Events.{RunStatus, RunStarted, RunCompleted}
use ai_lab.Usage.{
  UsageRow, UsageTable, Kind, run_start, Quantity, count, run_end, run_seconds, duration, is_for,
  record_run,
}
use ai_lab.Usage.Unique.{record_run-record_run, record_run_old, any_kept, any-recorded}
use ai_lab.Runs.Rows.{is_terminal}
use ai_lab.Runs.Rows.Lifecycle.{mark_started-mark_started, mark_completed-mark_completed}
use ai_lab.Runs.Hub.{RawCall}
use ai_lab.Runs.Feedback.{
  Api, map_status, StartedCall, CompletedCall, handle_started, handle_completed, at_or_now, meter,
  run_nanoseconds,
}

-- The rows of the log, whatever its sequence has come to.
abbrev pub usage_rows : Option UsageTable → List UsageRow
usage_rows none = []
usage_rows (some t) = t.rows

map_status_terminal : (s : RunStatus) → is_terminal (map_status s) ≡ true
unfolding map_status
map_status_terminal s = ground arith

-- A handler that reports an error has changed nothing.
pub failed_delivery :
    (c : StartedCall) (d : CompletedCall) (s : Api)
    → ((handle_started c s).1 ≡ false → (handle_started c s).0 ≡ s)
      × ((handle_completed d s).1 ≡ false → (handle_completed d s).0 ≡ s)
unfolding handle_started handle_completed
failed_delivery c d s = (λ h. ground arith, λ h. ground arith)

-- Metering twice adds no row, if the first INSERT succeeded wherever the second one does.
meter_twice :
    (first second : Bool) (tenant_id agent_id run_id : Text) (kind : Kind) (q q' : Quantity)
    (at at' : ℕ) (u : Option UsageTable)
    → (second ≡ true → first ≡ true)
    → usage_rows (
        meter second tenant_id agent_id run_id kind q' at'
          (meter first tenant_id agent_id run_id kind q at u))
      ≡ usage_rows (meter first tenant_id agent_id run_id kind q at u)
meter_twice first second tenant_id agent_id run_id kind q q' at at' none order = refl
meter_twice first false tenant_id agent_id run_id kind q q' at at' (some t) order = refl
meter_twice true true tenant_id agent_id run_id kind q q' at at' (some t) order =
    record_run-record_run tenant_id agent_id run_id kind q q' at at' t
meter_twice false true tenant_id agent_id run_id kind q q' at at' (some t) order = cc (order refl)

-- The same message of run.started delivered again leaves the runs table and the metering rows as
-- the first delivery left them, whatever the clocks say, if both updates of the row succeed and
-- the first metering INSERT succeeds wherever the second one does.
pub handle_started_twice :
    (ev : RunStarted) (now now' : ℕ) (usage_ok usage_ok' : Bool) (raw raw' : RawCall) (s : Api)
    → (usage_ok' ≡ true → usage_ok ≡ true)
    → let once =
        (handle_started
          (record { event = some ev; now = now; update_ok = true; usage_ok = usage_ok; raw = raw })
          s).0 in
      let twice =
        (handle_started
          (record {
            event = some ev;
            now = now';
            update_ok = true;
            usage_ok = usage_ok';
            raw = raw';
          })
          once).0 in
      (twice.runs ≡ once.runs) × (usage_rows twice.usage ≡ usage_rows once.usage)
unfolding handle_started
handle_started_twice ev now now' usage_ok usage_ok' raw raw' s order = (
  mark_started-mark_started ev.run_id (at_or_now ev.at now) (at_or_now ev.at now') s.runs,
  meter_twice usage_ok usage_ok' ev.tenant_id ev.agent_id ev.run_id run_start (count 1) (count 1)
      (at_or_now ev.at now) (at_or_now ev.at now') s.usage order,
)

meter_held :
    (ok : Bool) (tenant_id agent_id run_id : Text) (kind : Kind) (q : Quantity) (at : ℕ)
    (t : UsageTable)
    → any (is_for run_id kind) t.rows ≡ true
    → usage_rows (meter ok tenant_id agent_id run_id kind q at (some t)) ≡ t.rows
meter_held true tenant_id agent_id run_id kind q at t h =
    record_run_old tenant_id agent_id run_id kind q at t h
meter_held false tenant_id agent_id run_id kind q at t h = refl

-- The two metering calls of handleCompleted, on a log that already holds both rows.
meter_pair_held :
    (end_ok seconds_ok : Bool) (tenant_id agent_id run_id : Text) (q : Quantity) (at : ℕ)
    (t : UsageTable)
    → any (is_for run_id run_end) t.rows ≡ true
    → any (is_for run_id run_seconds) t.rows ≡ true
    → usage_rows (
        meter seconds_ok tenant_id agent_id run_id run_seconds q at
          (meter end_ok tenant_id agent_id run_id run_end (count 1) at (some t)))
      ≡ t.rows
meter_pair_held true seconds_ok tenant_id agent_id run_id q at t e s =
    let same_rows = record_run_old tenant_id agent_id run_id run_end (count 1) at t e in
    let t' = record_run tenant_id agent_id run_id run_end (count 1) at t in
    meter_held seconds_ok tenant_id agent_id run_id run_seconds q at t' (rw same_rows s) ∙ same_rows
meter_pair_held false seconds_ok tenant_id agent_id run_id q at t e s =
    meter_held seconds_ok tenant_id agent_id run_id run_seconds q at t s

meter_pair_twice :
    (end_ok seconds_ok : Bool) (tenant_id agent_id run_id : Text) (q q' : Quantity) (at at' : ℕ)
    (u : Option UsageTable)
    → let once =
        meter true tenant_id agent_id run_id run_seconds q at
          (meter true tenant_id agent_id run_id run_end (count 1) at u) in
      usage_rows (
        meter seconds_ok tenant_id agent_id run_id run_seconds q' at'
          (meter end_ok tenant_id agent_id run_id run_end (count 1) at' once))
      ≡ usage_rows once
meter_pair_twice end_ok seconds_ok tenant_id agent_id run_id q q' at at' none = refl
meter_pair_twice end_ok seconds_ok tenant_id agent_id run_id q q' at at' (some t) =
    let t1 = record_run tenant_id agent_id run_id run_end (count 1) at t in
    let t2 = record_run tenant_id agent_id run_id run_seconds q at t1 in
    meter_pair_held end_ok seconds_ok tenant_id agent_id run_id q' at' t2
      (any_kept tenant_id agent_id run_id run_seconds q at run_id run_end t1
        (any-recorded tenant_id agent_id run_id run_end (count 1) at t))
      (any-recorded tenant_id agent_id run_id run_seconds q at t1)

-- The same message of run.completed delivered again, after a delivery whose three statements
-- succeeded, leaves the runs table and the metering rows as they are, whatever the clocks say and
-- whether or not the second delivery's metering succeeds.
pub handle_completed_twice :
    (ev : RunCompleted) (now now' : ℕ) (end_ok seconds_ok : Bool) (raw raw' : RawCall) (s : Api)
    → let first : CompletedCall = record {
      event = some ev;
      now = now;
      update_ok = true;
      end_ok = true;
      seconds_ok = true;
      raw = raw;
    } in
      let second : CompletedCall = record {
        event = some ev;
        now = now';
        update_ok = true;
        end_ok = end_ok;
        seconds_ok = seconds_ok;
        raw = raw';
      } in
      let once = (handle_completed first s).0 in
      let twice = (handle_completed second once).0 in
      (twice.runs ≡ once.runs) × (usage_rows twice.usage ≡ usage_rows once.usage)
unfolding handle_completed
handle_completed_twice ev now now' end_ok seconds_ok raw raw' s =
    let code : Option ℕ = if ev.exit_code == 0 then none else some ev.exit_code in
    let ended = at_or_now ev.ended_at now in
    let ended' = at_or_now ev.ended_at now' in
    (
      mark_completed-mark_completed ev.run_id (map_status ev.status) (map_status ev.status)
          ev.outputs ev.outputs code code ev.error ev.error ended ended' s.runs
          (map_status_terminal ev.status),
      meter_pair_twice end_ok seconds_ok ev.tenant_id ev.agent_id ev.run_id
          (duration (run_nanoseconds ended ev.started_at))
          (duration (run_nanoseconds ended' ev.started_at)) ended ended' s.usage,
    )
