-- ===== src/Schedule.antt =====
-- Triggers: their table (internal/triggers/repo.go), their HTTP surface (handlers.go) and the
-- scheduler that fires those of kind cron (cmd/triggers/main.go). The cron library, the box that
-- seals a webhook's secret and the hash of a row are parameters.
pub mod Table
pub mod Scheduler
pub mod Surface
use ai_lab.Prelude.{
  Text, ℕ, Bool, not, ◌&&◌, ◌||◌, Option, none, some, List, [], ◌∷◌, ◌++◌, map, if◌then◌else◌,
  coalesce, txt, is_empty, same, hex_encode, select, select_one, any, order_desc, order_asc,
}
use ai_lab.Auth.{Identity}
use ai_lab.Audit.{Trail, log, Action, Resource, secret}
use ai_lab.Agents.{AgentRow, get_agent}
use ai_lab.Agents.Handlers.{Call, entry}
use ai_lab.Launch.Webhook.{Hook, no_hook, broken_hook, hook, webhook}

-- A row of triggers: an Option is a nullable column.
pub record TriggerRow : Type 0 where
  pub id : Text
  pub tenant_id : Text
  pub agent_id : Text
  pub kind : Text
  pub name : Text
  pub webhook_secret_ciphertext : Option Text
  pub cron_expr : Option Text
  pub created_at : ℕ

-- A Trigger without its secrets.
pub record Trigger : Type 0 where
  pub id : Text
  pub tenant_id : Text
  pub agent_id : Text
  pub kind : Text
  pub name : Text
  pub cron_expr : Text
  pub created_at : ℕ

abbrev pub kind_webhook : Text
kind_webhook = txt "webhook"

abbrev pub kind_cron : Text
kind_cron = txt "cron"

abbrev pub scan_trigger : TriggerRow → Trigger
scan_trigger r = record {
  id = r.id;
  tenant_id = r.tenant_id;
  agent_id = r.agent_id;
  kind = r.kind;
  name = r.name;
  cron_expr = coalesce r.cron_expr [];
  created_at = r.created_at;
}

-- The arguments of Create, with what the database fills in.
pub record NewTrigger : Type 0 where
  pub id : Text
  pub now : ℕ
  pub tenant_id : Text
  pub agent_id : Text
  pub kind : Text
  pub name : Text
  pub cron_expr : Text

-- The checks of Create
abbrev pub is_acceptable : NewTrigger → Bool
is_acceptable n =
    not (is_empty n.name)
    && (same n.kind kind_webhook || (same n.kind kind_cron && not (is_empty n.cron_expr)))

abbrev pub trigger_row : NewTrigger → Option Text → TriggerRow
trigger_row n sealed = record {
  id = n.id;
  tenant_id = n.tenant_id;
  agent_id = n.agent_id;
  kind = n.kind;
  name = n.name;
  webhook_secret_ciphertext = sealed;
  cron_expr = if is_empty n.cron_expr then none else some n.cron_expr;
  created_at = n.now;
}

-- UNIQUE (agent_id, name) of migrations/002
abbrev pub holds_name : Text → Text → TriggerRow → Bool
holds_name agent_id name r = same r.agent_id agent_id && same r.name name

-- The INSERT of Create: the trigger with its plain secret, or none for a name that is taken. The tenant
-- and the agent that the row refers to are there: the handler has looked them up.
abbrev pub insert_trigger :
    NewTrigger → Option Text → Text → List TriggerRow → List TriggerRow × Option (Trigger × Text)
insert_trigger n sealed plain rows =
    if any (holds_name n.agent_id n.name) rows
    then (rows, none)
    else (rows ++ trigger_row n sealed ∷ [], some (scan_trigger (trigger_row n sealed), plain))

abbrev pub insert_sealed :
    NewTrigger → Text → Option Text → List TriggerRow → List TriggerRow × Option (Trigger × Text)
insert_sealed n plain none rows = (rows, none)
insert_sealed n plain (some ct) rows = insert_trigger n (some ct) plain rows

-- Create of a webhook, given its 32 random bytes, or none, and what the box seals.
abbrev pub insert_webhook :
    (Text → Option Text)
    → NewTrigger
    → Option Text
    → List TriggerRow
    → List TriggerRow × Option (Trigger × Text)
insert_webhook seal n none rows = (rows, none)
insert_webhook seal n (some raw) rows =
    insert_sealed n (hex_encode raw) (seal (hex_encode raw)) rows

-- Repo.Create: none is an error.
unfoldable pub create_trigger :
    (Text → Option Text)
    → NewTrigger
    → Option Text
    → List TriggerRow
    → List TriggerRow × Option (Trigger × Text)
create_trigger seal n random rows =
    if not (is_acceptable n)
    then (rows, none)
    else if same n.kind kind_webhook
    then insert_webhook seal n random rows
    else insert_trigger n none [] rows

-- Repo.ListForAgent
unfoldable pub list_for_agent : Text → Text → List TriggerRow → List Trigger
list_for_agent tenant_id agent_id rows = map scan_trigger (
    order_desc (λ r. r.created_at)
      (select (λ r. same r.tenant_id tenant_id && same r.agent_id agent_id) rows))

abbrev pub is_webhook : Text → Text → TriggerRow → Bool
is_webhook agent_id name r = holds_name agent_id name r && same r.kind kind_webhook

-- The webhook that is found, with its opened secret
abbrev pub opened_hook : TriggerRow → Option Text → Hook
opened_hook r none = broken_hook
opened_hook r (some plain) = hook r.id r.tenant_id r.name plain

abbrev pub hook_of : (Text → Option Text) → TriggerRow → Hook
hook_of open_box r =
    let sealed = coalesce r.webhook_secret_ciphertext [] in
    if is_empty sealed then broken_hook else opened_hook r (open_box sealed)

abbrev pub hook_found : (Text → Option Text) → Option TriggerRow → Hook
hook_found open_box none = no_hook
hook_found open_box (some r) = hook_of open_box r

-- Repo.FindWebhookForVerification, as the receiver of webhooks takes it: db.ErrNotFound is no_hook,
-- another error broken_hook.
unfoldable pub find_webhook_for_verification :
    (Text → Option Text) → Text → Text → List TriggerRow → Hook
find_webhook_for_verification open_box agent_id name rows =
    hook_found open_box (select_one (is_webhook agent_id name) rows)

-- Repo.ListAllCron
unfoldable pub list_all_cron : List TriggerRow → List Trigger
list_all_cron rows =
    map scan_trigger (order_asc (λ r. r.created_at) (select (λ r. same r.kind kind_cron) rows))

-- triggerDTO: the secret is shown where Create has just made it.
pub record TriggerDto : Type 0 where
  pub id : Text
  pub agent_id : Text
  pub kind : Text
  pub name : Text
  pub cron_expr : Text
  pub created_at : ℕ
  pub webhook_secret : Text

abbrev pub trigger_dto : Trigger → Text → TriggerDto
trigger_dto t plain = record {
  id = t.id;
  agent_id = t.agent_id;
  kind = t.kind;
  name = t.name;
  cron_expr = t.cron_expr;
  created_at = t.created_at;
  webhook_secret = plain;
}
