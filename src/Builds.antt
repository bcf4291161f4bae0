-- ===== src/Builds.antt =====
-- The builds table and its repository (internal/builds/repo.go), with the janitor's sweep over it
-- (failStuckBuilds of cmd/janitor/main.go). MarkCompleted also writes the image column of agents.
-- A method stands for its successful execution; the clock and the fresh id are arguments.
pub mod Jobs
pub mod Worker
pub mod Lifecycle
pub mod Stages
pub mod Promotion
pub mod Requests
use ai_lab.Agents.{AgentRow}
use ai_lab.Prelude.{
  ℕ, ◌-◌, Bool, true, false, not, ◌&&◌, Option, none, some, List, [], ◌∷◌, ◌++◌, ltb, if◌then◌else◌,
  coalesce, Text, txt, is_empty, same, update_where, select_one,
}

pub data Status : Type 0 where
  pending running succeeded failed blocked : Status

-- A row: an Option is a nullable column.
pub record BuildRow : Type 0 where
  pub id : Text
  pub tenant_id : Text
  pub agent_id : Text
  pub status : Status
  pub source_url : Text
  pub image : Option Text
  pub error : Option Text
  pub created_at : ℕ
  pub ended_at : Option ℕ

-- What the api sees of a row.
pub record Build : Type 0 where
  pub id : Text
  pub tenant_id : Text
  pub agent_id : Text
  pub status : Status
  pub source_url : Text
  pub image : Text
  pub error : Text
  pub created_at : ℕ
  pub ended_at : Option ℕ

pub record Database : Type 0 where
  pub builds : List BuildRow
  pub agents : List AgentRow

abbrev pub nullif_empty : Text → Option Text
nullif_empty s = if is_empty s then none else some s

-- Repo.Create: the row that is inserted, and the build that is returned.
unfoldable pub create_build : Text → ℕ → Text → Text → Text → List BuildRow → List BuildRow × Build
create_build id now tenant_id agent_id source_url rows = (
  rows
      ++ record {
        id = id;
        tenant_id = tenant_id;
        agent_id = agent_id;
        status = pending;
        source_url = source_url;
        image = none;
        error = none;
        created_at = now;
        ended_at = none;
      }
        ∷ [],
  record {
    id = id;
    tenant_id = tenant_id;
    agent_id = agent_id;
    status = pending;
    source_url = source_url;
    image = [];
    error = [];
    created_at = now;
    ended_at = none;
  },
)

abbrev pub scan_build : BuildRow → Build
scan_build r = record {
  id = r.id;
  tenant_id = r.tenant_id;
  agent_id = r.agent_id;
  status = r.status;
  source_url = r.source_url;
  image = coalesce r.image [];
  error = coalesce r.error [];
  created_at = r.created_at;
  ended_at = r.ended_at;
}

-- Repo.Get: `none` is db.ErrNotFound.
unfoldable pub get_build : Text → Text → List BuildRow → Option Build
get_build tenant_id id rows =
    elim (select_one (λ r. same r.id id && same r.tenant_id tenant_id) rows) [
      | none ↦ none
      | some r ↦ some (scan_build r)
    ]

abbrev pub is_pending : Status → Bool
is_pending pending = true
is_pending _ = false

abbrev pub run_applies : Text → BuildRow → Bool
run_applies id r = same r.id id && is_pending r.status

abbrev pub running_row : BuildRow → BuildRow
running_row r = record r { status = running }

-- Repo.MarkRunning
unfoldable pub mark_running : Text → List BuildRow → List BuildRow
mark_running id = update_where (run_applies id) running_row

-- The statuses of the NOT IN list of MarkCompleted
abbrev pub is_terminal : Status → Bool
is_terminal succeeded = true
is_terminal failed = true
is_terminal blocked = true
is_terminal _ = false

abbrev pub completes : Text → BuildRow → Bool
completes id r = same r.id id && not (is_terminal r.status)

abbrev pub completed_row : Status → Text → Text → ℕ → BuildRow → BuildRow
completed_row status image err_msg ended_at r = record r {
  status = status;
  image = nullif_empty image;
  error = nullif_empty err_msg;
  ended_at = some ended_at;
}

abbrev pub is_succeeded : Status → Bool
is_succeeded succeeded = true
is_succeeded _ = false

-- UPDATE agents SET image
abbrev pub set_image : Text → Text → Text → List AgentRow → List AgentRow
set_image agent_id tenant_id image =
    update_where (λ a. same a.id agent_id && same a.tenant_id tenant_id)
      (λ a. record a { image = some image })

-- Repo.MarkCompleted, one transaction; ids are unique, so RETURNING yields at most one row.
unfoldable pub mark_completed : Text → Status → Text → Text → ℕ → Database → Database
mark_completed id status image err_msg ended_at db = elim (select_one (completes id) db.builds) [
  | none ↦ db
  | some r ↦ record {
    builds = update_where (completes id) (completed_row status image err_msg ended_at) db.builds;
    agents =
        if is_succeeded status && not (is_empty image)
        then set_image r.agent_id r.tenant_id image db.agents
        else db.agents;
  }
]

abbrev pub stuck_message : Text
stuck_message = txt "janitor: stuck longer than threshold"

abbrev pub is_stuck : ℕ → ℕ → BuildRow → Bool
is_stuck now build_stuck r = not (is_terminal r.status) && ltb r.created_at (now - build_stuck)

abbrev pub stuck_row : ℕ → BuildRow → BuildRow
stuck_row now r = record r {
  status = failed;
  error = some (coalesce r.error stuck_message);
  ended_at = some now;
}

-- failStuckBuilds. The clock is past the threshold, so the cutoff does not stop at 0.
unfoldable pub fail_stuck_builds : ℕ → ℕ → List BuildRow → List BuildRow
fail_stuck_builds now build_stuck = update_where (is_stuck now build_stuck) (stuck_row now)
