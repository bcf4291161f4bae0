-- ===== src/Usage.antt =====
-- The metering log (internal/usage/repo.go) over the usage_events table of migrations/002.
-- A quantity is a counter, or a duration in nanoseconds where the code has float seconds.
pub mod Unique
use ai_lab.Prelude.{
  ℕ, ◌+◌, Bool, true, false, ◌&&◌, Option, none, some, List, [], ◌∷◌, ◌++◌, if◌then◌else◌, Text,
  same, any, row, insert_asc,
}

pub data Kind : Type 0 where
  run_start run_end run_seconds mcp_heartbeat build_minutes : Kind

abbrev pub same_kind : Kind → Kind → Bool
same_kind run_start run_start = true
same_kind run_end run_end = true
same_kind run_seconds run_seconds = true
same_kind mcp_heartbeat mcp_heartbeat = true
same_kind build_minutes build_minutes = true
same_kind _ _ = false

pub data Quantity : Type 0 where
  count : ℕ → Quantity
  duration : ℕ → Quantity

pub record UsageRow : Type 0 where
  pub id : ℕ
  pub tenant_id : Text
  pub agent_id : Option Text
  pub run_id : Option Text
  pub kind : Kind
  pub quantity : Quantity
  pub recorded_at : ℕ

-- The table, listed by its ids, with the sequence behind its BIGSERIAL column.
pub record UsageTable : Type 0 where
  pub rows : List UsageRow
  pub next_id : ℕ

-- The partial unique index on (run_id, kind).
abbrev pub same_run : Option Text → Text → Bool
same_run none r = false
same_run (some s) r = same s r

abbrev pub is_for : Text → Kind → UsageRow → Bool
is_for run_id kind u = same_run u.run_id run_id && same_kind u.kind kind

abbrev pub run_row : Text → Text → Text → Kind → Quantity → ℕ → ℕ → UsageRow
run_row tenant_id agent_id run_id kind quantity at id = record {
  id = id;
  tenant_id = tenant_id;
  agent_id = some agent_id;
  run_id = some run_id;
  kind = kind;
  quantity = quantity;
  recorded_at = at;
}

-- The two moments of the INSERT of Repo.RecordRun: it draws its id from the sequence, and its row is
-- seen by others when it commits, by when other insertions may have drawn and committed theirs.
unfoldable pub draw_id : UsageTable → UsageTable
draw_id t = record t { next_id = t.next_id + 1 }

unfoldable pub commit_run : Text → Text → Text → Kind → Quantity → ℕ → ℕ → UsageTable → UsageTable
commit_run tenant_id agent_id run_id kind quantity at id t =
    if any (is_for run_id kind) t.rows then t else record t {
      rows = insert_asc (λ u. u.id) (run_row tenant_id agent_id run_id kind quantity at id) t.rows;
    }

-- Repo.RecordRun with no other insertion between the two. ON CONFLICT DO NOTHING still draws a number
-- from the sequence.
unfoldable pub record_run : Text → Text → Text → Kind → Quantity → ℕ → UsageTable → UsageTable
record_run tenant_id agent_id run_id kind quantity at t =
    if any (is_for run_id kind) t.rows then record t { next_id = t.next_id + 1 } else record {
      rows = t.rows ++ run_row tenant_id agent_id run_id kind quantity at t.next_id ∷ [];
      next_id = t.next_id + 1;
    }
