-- ===== src/Runs/Rows/Lifecycle.antt =====
-- The life of a row of the runs table under the statements of internal/runs/repo.go.
use ai_lab.Prelude.{
  ℕ, ◌≤◌, ◌≡◌, refl, ap, ◌∙◌, true, Option, none, some, List, [], ◌∷◌, map, arith, if◌then◌else◌,
  All, Text, Rows, update_where-Rows, Rows-refl, Rows-trans, update_where_absorbed,
}
use ai_lab.Runs.Rows.{
  Status, pending, running, RunRow, is_terminal, started_row, mark_started, completed_row,
  mark_completed, start_applies, complete_applies,
}

-- One statement that an event consumer runs against the table.
pub data Write : Type 0 where
  start : Text → ℕ → Write
  complete : Text → Status → Option Text → Option ℕ → Text → ℕ → Write

abbrev pub write : Write → List RunRow → List RunRow
write (start id at) rows = mark_started id at rows
write (complete id st out code msg ended) rows = mark_completed id st out code msg ended rows

abbrev pub write_all : List Write → List RunRow → List RunRow
write_all [] rows = rows
write_all (w ∷ ws) rows = write_all ws (write w rows)

-- A completion that writes one of the four terminal statuses.
abbrev pub EndsRun : Write → Type 0
EndsRun (start id at) = Unit
EndsRun (complete id st out code msg ended) = is_terminal st ≡ true

abbrev pub rank : Status → ℕ
rank pending = 0
rank running = 1
rank _ = 2

-- How a row may look after some statements, given how it looked before.
pub record Follows (r s : RunRow) : Type 0 where
  pub same_id : s.id ≡ r.id
  pub same_tenant : s.tenant_id ≡ r.tenant_id
  pub same_agent : s.agent_id ≡ r.agent_id
  pub same_inputs : s.inputs ≡ r.inputs
  pub same_created : s.created_at ≡ r.created_at
  pub frozen : is_terminal r.status ≡ true → s ≡ r
  pub upward : rank r.status ≤ rank s.status
  pub start_kept : (at : ℕ) → r.started_at ≡ some at → s.started_at ≡ some at

Follows-refl : (r : RunRow) → Follows r r
Follows-refl r = record {
  same_id = refl;
  same_tenant = refl;
  same_agent = refl;
  same_inputs = refl;
  same_created = refl;
  frozen = λ h. refl;
  upward = omega arith;
  start_kept = λ at h. h;
}

Follows-trans : (r s t : RunRow) → Follows r s → Follows s t → Follows r t
Follows-trans r s t f g = record {
  same_id = g.same_id ∙ f.same_id;
  same_tenant = g.same_tenant ∙ f.same_tenant;
  same_agent = g.same_agent ∙ f.same_agent;
  same_inputs = g.same_inputs ∙ f.same_inputs;
  same_created = g.same_created ∙ f.same_created;
  frozen =
      λ h. let e = f.frozen h in g.frozen (ap (λ (x : RunRow). is_terminal x.status) e ∙ h) ∙ e;
  upward = omega (arith, f.upward, g.upward);
  start_kept = λ at h. g.start_kept at (f.start_kept at h);
}

started-Follows :
    (id : Text) (at : ℕ) (r : RunRow)
    → Follows r (if start_applies id r then started_row at r else r)
started-Follows id at r = record {
  same_id = ground arith;
  same_tenant = ground arith;
  same_agent = ground arith;
  same_inputs = ground arith;
  same_created = ground arith;
  frozen = λ h. ground arith;
  upward = ground arith;
  start_kept = λ t h. ground arith;
}

completed-Follows :
    (id : Text) (st : Status) (out : Option Text) (code : Option ℕ) (msg : Text) (ended : ℕ)
    → is_terminal st ≡ true
    → (r : RunRow)
    → Follows r (if complete_applies id r then completed_row st out code msg ended r else r)
completed-Follows id st out code msg ended ends r = record {
  same_id = ground arith;
  same_tenant = ground arith;
  same_agent = ground arith;
  same_inputs = ground arith;
  same_created = ground arith;
  frozen = λ h. ground arith;
  upward = ground arith;
  start_kept = λ t h. ground arith;
}

write-Follows : (w : Write) (rows : List RunRow) → EndsRun w → Rows Follows rows (write w rows)
unfolding mark_started mark_completed
write-Follows (start id at) rows h =
    update_where-Rows (start_applies id) (started_row at) (started-Follows id at) rows
write-Follows (complete id st out code msg ended) rows h =
    update_where-Rows (complete_applies id) (completed_row st out code msg ended)
      (completed-Follows id st out code msg ended h) rows

-- Over any statements whose completions carry terminal statuses, every row keeps its place, its
-- id, tenant, agent, inputs and creation time, a terminal row keeps all its columns, the status
-- never goes back, and a start time is never replaced.
pub write_all-Follows :
    (ws : List Write) (rows : List RunRow) → All EndsRun ws → Rows Follows rows (write_all ws rows)
write_all-Follows [] rows h = Rows-refl Follows-refl rows
write_all-Follows (w ∷ ws) rows h =
    Rows-trans Follows-trans (write-Follows w rows h.0) (write_all-Follows ws (write w rows) h.1)

-- A second run.started for a run changes nothing, whatever time it carries.
pub mark_started-mark_started :
    (id : Text) (at again : ℕ) (rows : List RunRow)
    → mark_started id again (mark_started id at rows) ≡ mark_started id at rows
unfolding mark_started
mark_started-mark_started id at again rows =
    update_where_absorbed (start_applies id) (start_applies id) (started_row at) (started_row again)
      (λ r. ground arith) rows

-- After a terminal completion of a run any other completion of it changes nothing, whatever it
-- carries: the first one wins.
pub mark_completed-mark_completed :
    (id : Text) (st st' : Status) (out out' : Option Text) (code code' : Option ℕ) (msg msg' : Text)
    (ended ended' : ℕ) (rows : List RunRow)
    → is_terminal st ≡ true
    → mark_completed id st' out' code' msg' ended' (mark_completed id st out code msg ended rows)
      ≡ mark_completed id st out code msg ended rows
unfolding mark_completed
mark_completed-mark_completed id st st' out out' code code' msg msg' ended ended' rows h =
    update_where_absorbed (complete_applies id) (complete_applies id)
      (completed_row st out code msg ended) (completed_row st' out' code' msg' ended')
      (λ r. ground arith) rows

abbrev pub forget_start : RunRow → RunRow
forget_start r = record r { started_at = none }

-- Delivered in either order, run.started and a terminal run.completed leave the same table, but
-- for the start times.
pub start_complete_order :
    (id : Text) (at : ℕ) (st : Status) (out : Option Text) (code : Option ℕ) (msg : Text)
    (ended : ℕ) (rows : List RunRow)
    → is_terminal st ≡ true
    → map forget_start (mark_completed id st out code msg ended (mark_started id at rows))
      ≡ map forget_start (mark_started id at (mark_completed id st out code msg ended rows))
unfolding mark_started mark_completed
start_complete_order id at st out code msg ended [] h = refl
start_complete_order id at st out code msg ended (r ∷ rows) h =
    ground (arith, start_complete_order id at st out code msg ended rows h)
