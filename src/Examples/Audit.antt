-- ===== src/Examples/Audit.antt =====
-- A concrete trail and its export for internal/audit.
use ai_lab.Prelude.{true, false, none, some, List, [], ◌∷◌, txt}
use ai_lab.Audit.{Archive, Action, Resource, Trail, Entry, Pass}
use ai_lab.Audit.Exports.{Step, exports, draws, commits}
use ai_lab.Examples.Auth.{caller}

abbrev pub trail_1 : Trail
trail_1 = record { events = []; next_id = 1; tenants = txt "t1" ∷ [] }

abbrev pub archive_1 : Archive
archive_1 = record { trail = trail_1; last_event_id = some 0; objects = [] }

abbrev entry_1 : Entry
entry_1 = record {
  action = Action.create;
  resource_type = Resource.agent;
  resource_id = txt "a1";
  metadata = none;
  request_id = [];
  now = 3;
  served = true;
}

abbrev pub pass_1 : Pass
pass_1 = record {
  read_ok = true;
  put_ok = true;
  stored_anyway = false;
  advance_ok = true;
  key = txt "audit/dt=2026-01-01/x.jsonl.gz";
}

-- Two insertions draw ids 1 and 2 and commit in the other order, before a pass.
abbrev todo_1 : List Step
todo_1 =
    draws ∷ draws ∷ commits caller entry_1 2 ∷ commits caller entry_1 1 ∷ exports 10 pass_1 ∷ []
