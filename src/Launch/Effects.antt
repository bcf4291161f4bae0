-- ===== src/Launch/Effects.antt =====
-- What a launch may leave behind, by whichever way and with whatever outcomes.
use ai_lab.Agents.{AgentRow, get_agent}
use ai_lab.Prelude.{
  ℕ, ◌≡◌, refl, Bool, true, false, Option, some, [], ◌∷◌, ◌++◌, Text, none, take, sym, ◌≢◌, inl,
  inr, arith, Option-cases, txt, same→eq, is_empty_iff,
}
use ai_lab.Auth.{Identity}
use ai_lab.Audit.{Trail, Entry, Action, Resource, log}
use ai_lab.Audit.Entries.{Says}
use ai_lab.Events.{RunRequested}
use ai_lab.Builds.{pending}
use ai_lab.Launch.Webhook.{
  verify_signature, hook, hook_note, webhook_run, webhook_agent, max_body, inputs_from,
  webhook_signed, Delivery, webhook,
}
use ai_lab.Runs.Rows.{RunRow, new_run, create_run, pending}
use ai_lab.Launch.{
  Desk, Launch, Note, recorded, manual_note, no_note, runnable_image, insert_run, request_of,
  publish, Body, no_body, bad_json, inputs_of, queue, trigger_image, trigger_agent, trigger,
  accepted, fire_run, fire_agent, fire,
}

-- A pending row of an agent of the tenant with the id asked for, which runs in a container and has
-- an image, and the event of it.
pub record Backs (d : Desk) (tenant_id agent_id : Text) (row : RunRow) (ev : RunRequested)
    : Type 0 where
  pub agent : AgentRow
  pub found : get_agent tenant_id agent_id d.agents ≡ some agent
  pub is_container : agent.runtime ≡ txt "container"
  pub has_image : (agent.image ≡ some ev.image) × (ev.image ≢ [])
  pub same_run : row.id ≡ ev.run_id
  pub same_tenant : (row.tenant_id ≡ tenant_id) × (ev.tenant_id ≡ tenant_id)
  pub same_agent : (row.agent_id ≡ agent.id) × (ev.agent_id ≡ agent.id)
  pub same_inputs : row.inputs ≡ ev.inputs
  pub is_new : row.status ≡ pending

-- What a launch does to the trail, for its event.
abbrev pub Trace : Type 1
Trace = RunRequested → Trail → Trail → Type 0

-- One entry under an identity
abbrev pub Logs : Identity → (RunRequested → Entry → Type 0) → Trace
Logs i says ev t t' = (e : Entry) × (t' ≡ log (some i) e t) × says ev e

abbrev pub Manual : Identity → Trace
Manual i = Logs i (λ ev e. Says e Action.trigger Resource.run ev.run_id)

abbrev pub Invoked : Text → Text → Text → Trace
Invoked trigger_id tenant_id name =
    Logs (record { tenant_id = tenant_id; user_id = txt "webhook:" ++ name })
      (λ ev e. Says e Action.invoke Resource.trigger trigger_id)

abbrev pub Silent : Trace
Silent ev t t' = t' ≡ t

-- The three ways out of a launch: nothing, a pending row with no event, or a row, its event and the
-- trace of it.
pub data Effect (trace : Trace) (tenant_id agent_id : Text) (d : Desk) : Desk → Bool → Type 0 where
  nothing : Effect trace tenant_id agent_id d d false
  stuck :
      (row : RunRow)
      → row.tenant_id ≡ tenant_id
      → row.status ≡ pending
      → Effect trace tenant_id agent_id d (record d { runs = d.runs ++ row ∷ [] }) false
  started :
      (row : RunRow) (ev : RunRequested) (t : Trail)
      → Backs d tenant_id agent_id row ev
      → trace ev d.trail t
      → Effect trace tenant_id agent_id d
          (record d { runs = d.runs ++ row ∷ []; published = d.published ++ ev ∷ []; trail = t })
          true

runnable :
    (a : AgentRow) (image : Text)
    → runnable_image a ≡ some image
    → (a.runtime ≡ txt "container") × (a.image ≡ some image) × (image ≢ [])
unfolding runnable_image
runnable a image h = elim (Option-cases a.image) [
  | inl e ↦ absurd (ground arith)
  | inr (s, e) ↦ ground (arith, same→eq a.runtime (txt "container"), is_empty_iff s)
]

-- The note of a launch leaves the trace, for the event of every agent.
abbrev Leaves : Launch → Note → Trace → Type 0
Leaves l note trace =
    (a : AgentRow) (ev : RunRequested) (t : Trail)
    → ev.run_id ≡ l.call.id
    → trace ev t (recorded (note a) t)

abbrev pub row_of : Launch → Text → AgentRow → Option Text → RunRow
row_of l tenant_id a inputs = new_run l.call.id l.call.now tenant_id a.id inputs l.trace_id

inserted :
    (trace : Trace) (l : Launch) (tenant_id agent_id : Text) (a : AgentRow) (inputs : Option Text)
    (d : Desk)
    → Effect trace tenant_id agent_id d (insert_run l tenant_id a inputs d) false
unfolding create_run
inserted trace l tenant_id agent_id a inputs d = stuck (row_of l tenant_id a inputs) refl refl

sent_off :
    (trace : Trace) (l : Launch) (note : Note) (leaves : Leaves l note trace)
    (tenant_id agent_id : Text) (a : AgentRow) (image : Text) (inputs : Option Text) (ref : Text)
    (d : Desk)
    → get_agent tenant_id agent_id d.agents ≡ some a
    → runnable_image a ≡ some image
    → Effect trace tenant_id agent_id d
        (record (publish
          (request_of l tenant_id a image inputs ref)
          (insert_run l tenant_id a inputs d)) { trail = recorded (note a) d.trail })
        true
unfolding create_run
sent_off trace l note leaves tenant_id agent_id a image inputs ref d found runs =
    let ev = request_of l tenant_id a image inputs ref in
    let ok = runnable a image runs in
    started (row_of l tenant_id a inputs) ev (recorded (note a) d.trail)
      (record {
        agent = a;
        found = found;
        is_container = ok.0;
        has_image = (ok.1, ok.2);
        same_run = refl;
        same_tenant = (refl, refl);
        same_agent = (refl, refl);
        same_inputs = refl;
        is_new = refl;
      })
      (leaves a ev d.trail refl)

module _ (trace : Trace) (l : Launch) (note : Note) (leaves : Leaves l note trace)
    (tenant_id agent_id : Text) (d : Desk) where
  -- What a launch that ends in an HTTP status has done.
  abbrev Ends : Desk × ℕ → Type 0
  Ends out = Effect trace tenant_id agent_id d out.0 (accepted out.1)

  queue-Effect :
      (a : AgentRow) (image : Text) (inputs : Option Text) (c : Bool) (ref : Option Text) (p : Bool)
      → get_agent tenant_id agent_id d.agents ≡ some a
      → runnable_image a ≡ some image
      → Ends (queue l note tenant_id a image inputs c ref p d)
  queue-Effect a image inputs false ref p found runs = nothing
  queue-Effect a image inputs true none p found runs =
      inserted trace l tenant_id agent_id a inputs d
  queue-Effect a image inputs true (some ref) false found runs =
      inserted trace l tenant_id agent_id a inputs d
  queue-Effect a image inputs true (some ref) true found runs =
      sent_off trace l note leaves tenant_id agent_id a image inputs ref d found runs

  trigger_image-Effect :
      (a : AgentRow) (image : Option Text) (body : Body)
      → get_agent tenant_id agent_id d.agents ≡ some a
      → runnable_image a ≡ image
      → Ends (trigger_image l note tenant_id a image body d)
  trigger_image-Effect a none body found runs = nothing
  trigger_image-Effect a (some image) no_body found runs =
      queue-Effect a image none _ _ _ found runs
  trigger_image-Effect a (some image) bad_json found runs = nothing
  trigger_image-Effect a (some image) (inputs_of i) found runs =
      queue-Effect a image i _ _ _ found runs

  trigger_agent-Effect :
      (ok : Bool) (found : Option AgentRow) (body : Body)
      → get_agent tenant_id agent_id d.agents ≡ found
      → Ends (trigger_agent l note tenant_id ok found body d)
  trigger_agent-Effect false found body e = nothing
  trigger_agent-Effect true none body e = nothing
  trigger_agent-Effect true (some a) body e = trigger_image-Effect a (runnable_image a) body e refl

  webhook_run-Effect :
      (a : AgentRow) (image inputs : Option Text)
      → get_agent tenant_id agent_id d.agents ≡ some a
      → runnable_image a ≡ image
      → Ends (webhook_run l note tenant_id a image inputs d)
  webhook_run-Effect a none inputs found runs = nothing
  webhook_run-Effect a (some image) inputs found runs = queue-Effect a image inputs _ _ _ found runs

  webhook_agent-Effect :
      (ok : Bool) (found : Option AgentRow) (inputs : Option Text)
      → get_agent tenant_id agent_id d.agents ≡ found
      → Ends (webhook_agent l note tenant_id ok found inputs d)
  webhook_agent-Effect false found inputs e = nothing
  webhook_agent-Effect true none inputs e = nothing
  webhook_agent-Effect true (some a) inputs e =
      webhook_run-Effect a (runnable_image a) inputs e refl

  webhook_signed-Effect :
      (read signed : Bool) (inputs : Option Text)
      → Ends (webhook_signed l note tenant_id agent_id read signed inputs d)
  webhook_signed-Effect false signed inputs = nothing
  webhook_signed-Effect true false inputs = nothing
  webhook_signed-Effect true true inputs =
      webhook_agent-Effect l.call.repo_ok (get_agent tenant_id agent_id d.agents) inputs refl

module _ (l : Launch) (agent_id : Text) (d : Desk) where
  pub trigger-Effect :
      (i : Identity) (body : Body)
      → Effect
          (Manual i)
          i.tenant_id
          agent_id
          d
          (trigger l (some i) agent_id body d).0
          (accepted (trigger l (some i) agent_id body d).1)
  unfolding trigger
  trigger-Effect i body =
      trigger_agent-Effect (Manual i) l (manual_note l i)
        (λ a ev t own. (_, refl, (refl, refl, sym own))) i.tenant_id agent_id d l.call.repo_ok
        (get_agent i.tenant_id agent_id d.agents) body refl

  -- A webhook whose trigger belongs to a tenant, with whatever signature, body and outcomes, does one
  -- of the three things, under that tenant, its audit entry being of the trigger and by the webhook.
  pub webhook-Effect :
      (mac : Text → Text → Text) (decode : Text → Option Text)
      (trigger_id tenant_id name key : Text) (q : Delivery)
      → let out = webhook mac decode l (hook trigger_id tenant_id name key) agent_id q d in
        Effect (Invoked trigger_id tenant_id name) tenant_id agent_id d out.0 (accepted out.1)
  unfolding webhook
  webhook-Effect mac decode trigger_id tenant_id name key q =
      webhook_signed-Effect (Invoked trigger_id tenant_id name) l
        (hook_note l trigger_id tenant_id name) (λ a ev t own. (_, refl, (refl, refl, refl)))
        tenant_id agent_id d q.read_ok _ _

  fire_run-Effect :
      (tenant_id : Text) (a : AgentRow) (image : Option Text)
      → get_agent tenant_id agent_id d.agents ≡ some a
      → runnable_image a ≡ image
      → Effect Silent tenant_id agent_id d
          (fire_run l tenant_id a image d).0
          (fire_run l tenant_id a image d).1
  fire_run-Effect tenant_id a none found runs = nothing
  fire_run-Effect tenant_id a (some image) found runs =
      queue-Effect Silent l no_note (λ a ev t own. refl) tenant_id agent_id d a image none _ _ _
        found runs

  fire_agent-Effect :
      (tenant_id : Text) (ok : Bool) (found : Option AgentRow)
      → get_agent tenant_id agent_id d.agents ≡ found
      → Effect Silent tenant_id agent_id d
          (fire_agent l tenant_id ok found d).0
          (fire_agent l tenant_id ok found d).1
  fire_agent-Effect tenant_id false found e = nothing
  fire_agent-Effect tenant_id true none e = nothing
  fire_agent-Effect tenant_id true (some a) e =
      fire_run-Effect tenant_id a (runnable_image a) e refl

  -- A firing of a cron trigger does one of the three things, under the trigger's tenant and without
  -- an audit entry, and reports no error exactly when the event is out.
  pub fire-Effect :
      (tenant_id : Text)
      → Effect Silent tenant_id agent_id d
          (fire l tenant_id agent_id d).0
          (fire l tenant_id agent_id d).1
  unfolding fire
  fire-Effect tenant_id =
      fire_agent-Effect tenant_id l.call.repo_ok (get_agent tenant_id agent_id d.agents) refl

  -- A webhook without a valid signature of its body, cut at its limit, under the trigger's secret
  -- changes nothing.
  pub webhook_unsigned :
      (mac : Text → Text → Text) (decode : Text → Option Text)
      (trigger_id tenant_id name key : Text) (q : Delivery)
      → verify_signature mac q.header (take max_body q.sent) key ≡ false
      → (webhook mac decode l (hook trigger_id tenant_id name key) agent_id q d).0 ≡ d
  unfolding webhook
  webhook_unsigned mac decode trigger_id tenant_id name key q bad =
      go q.read_ok (verify_signature mac q.header (take max_body q.sent) key) bad
    where
      go :
          (read signed : Bool)
          → signed ≡ false
          → (webhook_signed l
              (hook_note l trigger_id tenant_id name)
              tenant_id
              agent_id
              read
              signed
              (inputs_from decode (take max_body q.sent))
              d).0
            ≡ d
      go false signed e = refl
      go true false e = refl
      go true true e = absurd cc
