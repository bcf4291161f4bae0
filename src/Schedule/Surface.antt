-- ===== src/Schedule/Surface.antt =====
-- The triggers' HTTP surface behind the middleware (create and list of internal/triggers/
-- handlers.go). The agent is looked up first, under the caller's tenant.
use ai_lab.Prelude.{Text, ℕ, Bool, true, false, Option, none, some, List, [], ◌∷◌, map, txt}
use ai_lab.Auth.{Identity}
use ai_lab.Audit.{Trail, log, Action, Resource, Entry}
use ai_lab.Agents.{AgentRow, get_agent}
use ai_lab.Agents.Handlers.{Call, entry}
use ai_lab.Schedule.{
  Trigger, TriggerRow, NewTrigger, create_trigger, list_for_agent, TriggerDto, trigger_dto,
}

-- The body of create; what does not decode is none.
pub record CreateRequest : Type 0 where
  pub kind : Text
  pub name : Text
  pub cron_expr : Text

pub record Desk : Type 0 where
  pub triggers : List TriggerRow
  pub trail : Trail

abbrev pub created_entry : Call → Text → Trigger → Entry
created_entry c agent_id t =
    entry c Action.create Resource.trigger t.id
      (some ((txt "agentId", agent_id) ∷ (txt "kind", t.kind) ∷ (txt "name", t.name) ∷ []))

abbrev pub created :
    Identity
    → Call
    → Text
    → List TriggerRow × Option (Trigger × Text)
    → Desk
    → Desk × (ℕ × Option TriggerDto)
created i c agent_id (rows, none) d = (d, (400, none))
created i c agent_id (rows, some (t, plain)) d = (
  record { triggers = rows; trail = log (some i) (created_entry c agent_id t) d.trail },
  (201, some (trigger_dto t plain)),
)

abbrev pub new_trigger : Identity → Call → Text → CreateRequest → NewTrigger
new_trigger i c agent_id q = record {
  id = c.id;
  now = c.now;
  tenant_id = i.tenant_id;
  agent_id = agent_id;
  kind = q.kind;
  name = q.name;
  cron_expr = q.cron_expr;
}

-- create after the lookup of the agent, given whether it was served
abbrev pub create_found :
    (Text → Option Text)
    → Identity
    → Call
    → Text
    → Option Text
    → Bool
    → Option AgentRow
    → Option CreateRequest
    → Desk
    → Desk × (ℕ × Option TriggerDto)
create_found seal i c agent_id random false found body d = (d, (500, none))
create_found seal i c agent_id random true none body d = (d, (404, none))
create_found seal i c agent_id random true (some a) none d = (d, (400, none))
create_found seal i c agent_id random true (some a) (some q) d =
    created i c agent_id (create_trigger seal (new_trigger i c agent_id q) random d.triggers) d

-- Handlers.create
unfoldable pub handle_create :
    (Text → Option Text)
    → Option Identity
    → Call
    → Text
    → Option Text
    → Option CreateRequest
    → List AgentRow
    → Desk
    → Desk × (ℕ × Option TriggerDto)
handle_create seal none c agent_id random body agents d = (d, (401, none))
handle_create seal (some i) c agent_id random body agents d =
    create_found seal i c agent_id random c.repo_ok (get_agent i.tenant_id agent_id agents) body d

-- list after the lookup of the agent, given whether this and the query are served
abbrev pub list_found :
    Identity → Text → Bool → Option AgentRow → Bool → List TriggerRow → ℕ × List TriggerDto
list_found i agent_id false found rows_ok rows = (500, [])
list_found i agent_id true none rows_ok rows = (404, [])
list_found i agent_id true (some a) false rows = (500, [])
list_found i agent_id true (some a) true rows =
    (200, map (λ t. trigger_dto t []) (list_for_agent i.tenant_id agent_id rows))

-- Handlers.list
unfoldable pub handle_list :
    Option Identity → Call → Text → Bool → List AgentRow → List TriggerRow → ℕ × List TriggerDto
handle_list none c agent_id rows_ok agents rows = (401, [])
handle_list (some i) c agent_id rows_ok agents rows =
    list_found i agent_id c.repo_ok (get_agent i.tenant_id agent_id agents) rows_ok rows
