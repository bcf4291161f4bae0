-- ===== src/Agents.antt =====
-- The agents table and its repository (internal/agents/repo.go, migrations/001_init.sql). The clock
-- and the fresh id are arguments. The manifest column holds what was inserted: its JSON encoding is
-- not modelled, and reads back as the same manifest.
pub mod Table
pub mod Handlers
pub mod Deploy
use ai_lab.Prelude.{
  ℕ, Bool, true, false, not, ◌&&◌, ◌||◌, Option, none, some, List, [], ◌∷◌, ◌++◌, if◌then◌else◌,
  Text, txt, is_empty, same, select_one, any, page, page_size, map, delete_where,
}
use ai_lab.Manifest.{Manifest, is_mode, is_runtime}

-- A row, and what the methods return of it: Agent.
pub record AgentRow : Type 0 where
  pub id : Text
  pub tenant_id : Text
  pub name : Text
  pub mode : Text
  pub runtime : Text
  pub image : Option Text
  pub manifest : Manifest
  pub created_at : ℕ

-- Repo.Create before the INSERT: imagePtr, and the row with the columns the database fills in.
abbrev pub agent_row : Text → ℕ → Text → Manifest → AgentRow
agent_row id now tenant_id m = record {
  id = id;
  tenant_id = tenant_id;
  name = m.name;
  mode = m.mode;
  runtime = m.runtime;
  image = if is_empty m.image then none else some m.image;
  manifest = m;
  created_at = now;
}

-- The unique index on (tenant_id, name)
abbrev pub holds_name : Text → Text → AgentRow → Bool
holds_name tenant_id name a = same a.tenant_id tenant_id && same a.name name

-- The CHECK clauses of the table
abbrev pub meets_checks : AgentRow → Bool
meets_checks a = is_mode a.mode && is_runtime a.runtime

-- Repo.Create, given whether the tenants table has the tenant that the row refers to: `none` for the
-- error of a violated constraint, else the agent.
unfoldable pub create_agent :
    Text → ℕ → Text → Manifest → Bool → List AgentRow → List AgentRow × Option AgentRow
create_agent id now tenant_id m known rows =
    if not known
      || (any (holds_name tenant_id m.name) rows
          || not (meets_checks (agent_row id now tenant_id m)))
    then (rows, none)
    else (rows ++ agent_row id now tenant_id m ∷ [], some (agent_row id now tenant_id m))

abbrev pub is_agent : Text → Text → AgentRow → Bool
is_agent tenant_id id a = same a.id id && same a.tenant_id tenant_id

-- Repo.Get: `none` is db.ErrNotFound.
unfoldable pub get_agent : Text → Text → List AgentRow → Option AgentRow
get_agent tenant_id id = select_one (is_agent tenant_id id)

-- Repo.List
unfoldable pub list_agents : Text → Option ℕ → List AgentRow → List AgentRow
list_agents tenant_id limit =
    page (λ a. a.created_at) (λ a. same a.tenant_id tenant_id) (page_size 50 200 limit)

-- Repo.Delete: false is db.ErrNotFound.
unfoldable pub delete_agent : Text → Text → List AgentRow → List AgentRow × Bool
delete_agent tenant_id id rows =
    (delete_where (is_agent tenant_id id) rows, any (is_agent tenant_id id) rows)
