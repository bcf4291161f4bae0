-- ===== src/Agents/Handlers.antt =====
-- The agents' HTTP surface (internal/agents/handlers.go). A request carries the identity that the
-- middleware has put into its context, if any; the answer is a status, with what is written as JSON
-- where it is a success.
pub mod Effects
use ai_lab.Prelude.{
  ℕ, Bool, true, false, not, Option, none, some, List, [], ◌∷◌, map, if◌then◌else◌, is_some, Text,
  txt, same, any,
}
use ai_lab.Auth.{Identity}
use ai_lab.Audit.{Entry, Trail, log, Action, Resource}
use ai_lab.Manifest.{Manifest, validate}
use ai_lab.Agents.{AgentRow, create_agent, get_agent, list_agents, delete_agent}

pub record Site : Type 0 where
  pub agents : List AgentRow
  pub trail : Trail

-- How the calls of one request go: whether the repository's query is served, the columns that the
-- database fills in, the encoder of the audit metadata, and the insertion into the trail.
pub record Call : Type 0 where
  pub repo_ok : Bool
  pub id : Text
  pub now : ℕ
  pub encode : List (Text × Text) → Option Text
  pub request_id : Text
  pub audited_at : ℕ
  pub audit_ok : Bool

-- The metadata of an entry: the nil map, or the pairs of a map.
abbrev pub entry : Call → Action → Resource → Text → Option (List (Text × Text)) → Entry
entry c action resource id metadata = record {
  action = action;
  resource_type = resource;
  resource_id = id;
  metadata = elim metadata [ none ↦ none | some m ↦ c.encode m ];
  request_id = c.request_id;
  now = c.audited_at;
  served = c.audit_ok;
}

-- agentDTO
pub record AgentDto : Type 0 where
  pub id : Text
  pub name : Text
  pub mode : Text
  pub runtime : Text
  pub image : Option Text
  pub created_at : ℕ

abbrev pub to_dto : AgentRow → AgentDto
to_dto a = record {
  id = a.id;
  name = a.name;
  mode = a.mode;
  runtime = a.runtime;
  image = a.image;
  created_at = a.created_at;
}

-- Handlers.list: the limit is 0.
unfoldable pub handle_list : Option Identity → Call → List AgentRow → Option (List AgentDto) × ℕ
handle_list none c rows = (none, 401)
handle_list (some i) c rows =
    if c.repo_ok
    then (some (map to_dto (list_agents i.tenant_id (some 0) rows)), 200)
    else (none, 500)

abbrev pub created_entry : Call → AgentRow → Entry
created_entry c a =
    entry c Action.create Resource.agent a.id
      (some ((txt "name", a.name) ∷ (txt "mode", a.mode) ∷ (txt "runtime", a.runtime) ∷ []))

-- create once the row is inserted, or refused
abbrev pub created : Identity → Call → List AgentRow × Option AgentRow → Site → Site × ℕ
created i c (rows, none) s = (s, 500)
created i c (rows, some a) s =
    (record { agents = rows; trail = log (some i) (created_entry c a) s.trail }, 201)

-- create of a manifest, given the result of its validation and whether the query is served
abbrev pub create_checked : Identity → Call → Manifest → Bool → Bool → Site → Site × ℕ
create_checked i c m false repo_ok s = (s, 400)
create_checked i c m true false s = (s, 500)
create_checked i c m true true s =
    created i c
      (create_agent c.id c.now i.tenant_id m (any (same i.tenant_id) s.trail.tenants) s.agents) s

-- Handlers.create: a body that does not decode is none.
unfoldable pub handle_create : Option Identity → Call → Option Manifest → Site → Site × ℕ
handle_create none c body s = (s, 401)
handle_create (some i) c none s = (s, 400)
handle_create (some i) c (some m) s =
    create_checked i c m (not (is_some (validate (some m)))) c.repo_ok s

-- Handlers.get
unfoldable pub handle_get : Option Identity → Call → Text → List AgentRow → Option AgentDto × ℕ
handle_get none c id rows = (none, 401)
handle_get (some i) c id rows =
    if not c.repo_ok then (none, 500) else elim (get_agent i.tenant_id id rows) [
      | none ↦ (none, 404)
      | some a ↦ (some (to_dto a), 200)
    ]

-- delete once the query is served
abbrev pub deleted : Identity → Call → Text → List AgentRow × Bool → Site → Site × ℕ
deleted i c id (rows, false) s = (s, 404)
deleted i c id (rows, true) s = (
  record {
    agents = rows;
    trail = log (some i) (entry c Action.delete Resource.agent id none) s.trail;
  },
  204,
)

abbrev pub delete_served : Identity → Call → Text → Bool → Site → Site × ℕ
delete_served i c id false s = (s, 500)
delete_served i c id true s = deleted i c id (delete_agent i.tenant_id id s.agents) s

-- Handlers.delete
unfoldable pub handle_delete : Option Identity → Call → Text → Site → Site × ℕ
handle_delete none c id s = (s, 401)
handle_delete (some i) c id s = delete_served i c id c.repo_ok s
