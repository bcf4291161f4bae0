-- ===== src/Launch.antt =====
-- The three ways to start a run: the api's POST (trigger of internal/runs/handlers.go), a webhook
-- (webhook of internal/triggers/handlers.go) and the cron scheduler (fire of cmd/triggers/main.go).
-- Each looks up the agent, inserts a pending row, publishes run.requested, and, but for fire, writes
-- an audit entry. The outcome of each call is a field of the launch; the answer is an HTTP status,
-- and for fire an error or none.
pub mod Webhook
pub mod Effects
pub mod Backing
use ai_lab.Agents.{AgentRow, get_agent}
use ai_lab.Agents.Handlers.{Call, entry}
use ai_lab.Audit.{Trail, Entry, log, Action, Resource}
use ai_lab.Auth.{Identity}
use ai_lab.Prelude.{
  ℕ, ◌*◌, Bool, true, false, not, Option, none, some, List, [], ◌∷◌, ◌++◌, if◌then◌else◌, Text, txt,
  is_empty, same, ◌==◌,
}
use ai_lab.Events.{RunRequested}
use ai_lab.Runs.Rows.{RunRow, Run, create_run}

-- The tables, the audit trail, and what has been published, in order.
pub record Desk : Type 0 where
  pub runs : List RunRow
  pub agents : List AgentRow
  pub published : List RunRequested
  pub trail : Trail

-- What the calls of one launch give: the outcome of the lookup, the id and the time of the row and
-- the parts of the audit entry, as for a handler of agents; the outcomes of the insertion and of the
-- publication, the trace, the span's context, the projected Secret or its error, and the clock of
-- the process.
pub record Launch : Type 0 where
  pub call : Call
  pub create_ok : Bool
  pub publish_ok : Bool
  pub trace_id : Text
  pub trace_context : List (Text × Text)
  pub secret_ref : Option Text
  pub at : ℕ

-- The image of an agent that the v1 spine can run.
unfoldable pub runnable_image : AgentRow → Option Text
runnable_image a =
    if same a.runtime (txt "container")
    then (elim a.image [ none ↦ none | some i ↦ if is_empty i then none else some i ])
    else none

-- The insertion, the same call in all three.
abbrev pub insert_run : Launch → Text → AgentRow → Option Text → Desk → Desk
insert_run l tenant_id a inputs d = record d {
  runs = (create_run l.call.id l.call.now tenant_id a.id inputs l.trace_id d.runs).0;
}

abbrev pub request_of : Launch → Text → AgentRow → Text → Option Text → Text → RunRequested
request_of l tenant_id a image inputs secret_ref = record {
  tenant_id = tenant_id;
  agent_id = a.id;
  run_id = l.call.id;
  image = image;
  inputs = inputs;
  trace_id = l.trace_id;
  secret_ref = secret_ref;
  trace_context = l.trace_context;
  at = l.at;
}

abbrev pub publish : RunRequested → Desk → Desk
publish ev d = record d { published = d.published ++ ev ∷ [] }

-- What a launch writes to the trail for an agent, under an identity, or nothing.
abbrev pub Note : Type 0
Note = AgentRow → Option (Identity × Entry)

abbrev pub recorded : Option (Identity × Entry) → Trail → Trail
recorded none t = t
recorded (some (i, e)) t = log (some i) e t

-- The body of a POST: absent, or what the decoder makes of it.
pub data Body : Type 0 where
  no_body bad_json : Body
  inputs_of : Option Text → Body

-- The insertion, the projected Secret, the publication and the audit entry, given how they go.
abbrev pub queue :
    Launch
    → Note
    → Text
    → AgentRow
    → Text
    → Option Text
    → Bool
    → Option Text
    → Bool
    → Desk
    → Desk × ℕ
queue l note tenant_id a image inputs false secret_ref publish_ok d = (d, 500)
queue l note tenant_id a image inputs true none publish_ok d =
    (insert_run l tenant_id a inputs d, 500)
queue l note tenant_id a image inputs true (some ref) false d =
    (insert_run l tenant_id a inputs d, 502)
queue l note tenant_id a image inputs true (some ref) true d = (
  record (publish (request_of l tenant_id a image inputs ref) (insert_run l tenant_id a inputs d)) {
    trail = recorded (note a) d.trail;
  },
  202,
)

abbrev pub trigger_body : Launch → Note → Text → AgentRow → Text → Body → Desk → Desk × ℕ
trigger_body l note tenant_id a image no_body d =
    queue l note tenant_id a image none l.create_ok l.secret_ref l.publish_ok d
trigger_body l note tenant_id a image bad_json d = (d, 400)
trigger_body l note tenant_id a image (inputs_of i) d =
    queue l note tenant_id a image i l.create_ok l.secret_ref l.publish_ok d

abbrev pub trigger_image : Launch → Note → Text → AgentRow → Option Text → Body → Desk → Desk × ℕ
trigger_image l note tenant_id a none body d = (d, 422)
trigger_image l note tenant_id a (some image) body d = trigger_body l note tenant_id a image body d

-- After the lookup of the agent, given whether it was served.
abbrev pub trigger_agent : Launch → Note → Text → Bool → Option AgentRow → Body → Desk → Desk × ℕ
trigger_agent l note tenant_id false found body d = (d, 500)
trigger_agent l note tenant_id true none body d = (d, 404)
trigger_agent l note tenant_id true (some a) body d =
    trigger_image l note tenant_id a (runnable_image a) body d

-- The entry of a run that a caller has triggered
abbrev pub manual_note : Launch → Identity → Note
manual_note l i a = some (
  i,
  entry l.call Action.trigger Resource.run l.call.id
      (some ((txt "agentId", a.id) ∷ (txt "source", txt "manual") ∷ [])),
)

-- Handlers.trigger, with the identity in the request's context, if any.
unfoldable pub trigger : Launch → Option Identity → Text → Body → Desk → Desk × ℕ
trigger l none agent_id body d = (d, 401)
trigger l (some i) agent_id body d =
    trigger_agent l (manual_note l i) i.tenant_id l.call.repo_ok
      (get_agent i.tenant_id agent_id d.agents) body d

-- fire leaves the trail as it is.
abbrev pub no_note : Note
no_note a = none

-- 202 Accepted
abbrev pub accepted : ℕ → Bool
accepted n = n == 202

abbrev pub fire_run : Launch → Text → AgentRow → Option Text → Desk → Desk × Bool
fire_run l tenant_id a none d = (d, false)
fire_run l tenant_id a (some image) d =
    let (d', n) = queue l no_note tenant_id a image none l.create_ok (some []) l.publish_ok d in
    (d', accepted n)

abbrev pub fire_agent : Launch → Text → Bool → Option AgentRow → Desk → Desk × Bool
fire_agent l tenant_id false found d = (d, false)
fire_agent l tenant_id true none d = (d, false)
fire_agent l tenant_id true (some a) d = fire_run l tenant_id a (runnable_image a) d

-- scheduler.fire on a trigger's tenant and agent; true is nil.
unfoldable pub fire : Launch → Text → Text → Desk → Desk × Bool
fire l tenant_id agent_id d =
    fire_agent l tenant_id l.call.repo_ok (get_agent tenant_id agent_id d.agents) d
