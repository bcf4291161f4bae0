-- ===== src/Runs/Rows.antt =====
-- The runs table and its repository (internal/runs/repo.go), with the columns of
-- migrations/001_init.sql. Each method gets the fresh id and the clock of the database as arguments.
-- A failing statement changes nothing, so each method stands for its successful execution.
pub mod Lifecycle
pub mod Queries
use ai_lab.Prelude.{
  ℕ, ◌≡◌, Bool, true, false, ◌&&◌, ◌||◌, not, Option, none, some, List, [], ◌∷◌, ◌++◌, map, Text,
  same, ltb, leb, if◌then◌else◌, coalesce, is_empty, update_where, select, select_one, take, row,
  page, page_size,
}

pub data Status : Type 0 where
  pending running succeeded failed timed_out cancelled : Status

-- A row: an Option is a nullable column.
pub record RunRow : Type 0 where
  pub id : Text
  pub tenant_id : Text
  pub agent_id : Text
  pub status : Status
  pub inputs : Option Text
  pub outputs : Option Text
  pub exit_code : Option ℕ
  pub error : Option Text
  pub trace_id : Option Text
  pub created_at : ℕ
  pub started_at : Option ℕ
  pub ended_at : Option ℕ

-- What the api sees of a row.
pub record Run : Type 0 where
  pub id : Text
  pub tenant_id : Text
  pub agent_id : Text
  pub status : Status
  pub inputs : Option Text
  pub outputs : Option Text
  pub exit_code : Option ℕ
  pub error : Text
  pub trace_id : Text
  pub created_at : ℕ
  pub started_at : Option ℕ
  pub ended_at : Option ℕ

-- NULLIF(s, '')
abbrev pub nullif_empty : Text → Option Text
nullif_empty s = if is_empty s then none else some s

-- The SELECT list with its COALESCEs, and the Scan.
abbrev pub scan_run : RunRow → Run
scan_run r = record {
  id = r.id;
  tenant_id = r.tenant_id;
  agent_id = r.agent_id;
  status = r.status;
  inputs = r.inputs;
  outputs = r.outputs;
  exit_code = r.exit_code;
  error = coalesce r.error [];
  trace_id = coalesce r.trace_id [];
  created_at = r.created_at;
  started_at = r.started_at;
  ended_at = r.ended_at;
}

-- Repo.Create: the row that is inserted, and the run that is returned.
unfoldable pub new_run : Text → ℕ → Text → Text → Option Text → Text → RunRow
new_run id now tenant_id agent_id inputs trace_id = record {
  id = id;
  tenant_id = tenant_id;
  agent_id = agent_id;
  status = pending;
  inputs = inputs;
  outputs = none;
  exit_code = none;
  error = none;
  trace_id = nullif_empty trace_id;
  created_at = now;
  started_at = none;
  ended_at = none;
}

unfoldable pub create_run :
    Text → ℕ → Text → Text → Option Text → Text → List RunRow → List RunRow × Run
unfolding new_run
create_run id now tenant_id agent_id inputs trace_id rows =
    let row = new_run id now tenant_id agent_id inputs trace_id in (rows ++ row ∷ [], scan_run row)

-- Repo.Get: `none` is db.ErrNotFound.
unfoldable pub get_run : Text → Text → List RunRow → Option Run
get_run tenant_id id rows =
    elim (select_one (λ r. same r.id id && same r.tenant_id tenant_id) rows) [
      | none ↦ none
      | some r ↦ some (scan_run r)
    ]

-- ORDER BY created_at DESC LIMIT n, of the runs of an agent
abbrev pub run_page : (RunRow → Bool) → ℕ → List RunRow → List RunRow
run_page = page (λ r. r.created_at)

-- Repo.ListForAgent
unfoldable pub list_for_agent : Text → Text → Option ℕ → List RunRow → List Run
list_for_agent tenant_id agent_id limit rows = map scan_run (
    run_page (λ r. same r.tenant_id tenant_id && same r.agent_id agent_id) (page_size 50 200 limit)
      rows)

-- status IN ('pending','running')
abbrev pub is_open : Status → Bool
is_open pending = true
is_open running = true
is_open _ = false

-- isTerminal of events_handler.go, and the NOT IN list of MarkCompleted
abbrev pub is_terminal : Status → Bool
is_terminal succeeded = true
is_terminal failed = true
is_terminal timed_out = true
is_terminal cancelled = true
is_terminal _ = false

abbrev pub start_applies : Text → RunRow → Bool
start_applies run_id r = same r.id run_id && is_open r.status

abbrev pub started_row : ℕ → RunRow → RunRow
started_row at r = record r { status = running; started_at = some (coalesce r.started_at at) }

-- Repo.MarkStarted
unfoldable pub mark_started : Text → ℕ → List RunRow → List RunRow
mark_started run_id at = update_where (start_applies run_id) (started_row at)

abbrev pub complete_applies : Text → RunRow → Bool
complete_applies run_id r = same r.id run_id && not (is_terminal r.status)

abbrev pub completed_row : Status → Option Text → Option ℕ → Text → ℕ → RunRow → RunRow
completed_row status outputs exit_code err_msg ended_at r = record r {
  status = status;
  outputs = outputs;
  exit_code = exit_code;
  error = nullif_empty err_msg;
  ended_at = some ended_at;
}

-- Repo.MarkCompleted
unfoldable pub mark_completed :
    Text → Status → Option Text → Option ℕ → Text → ℕ → List RunRow → List RunRow
mark_completed run_id status outputs exit_code err_msg ended_at =
    update_where (complete_applies run_id) (completed_row status outputs exit_code err_msg ended_at)
