-- ===== src/Examples/Agents.antt =====
-- Concrete requests for internal/agents.
use ai_lab.Prelude.{true, false, none, some, [], txt}
use ai_lab.Agents.{AgentRow}
use ai_lab.Agents.Handlers.{Site, Call}
use ai_lab.Agents.Deploy.{Board, DeployCall}
use ai_lab.Manifest.{mode_server}
use ai_lab.Examples.Audit.{trail_1}
use ai_lab.Examples.Manifests.{agent_1}

abbrev pub call_1 : Call
call_1 = record {
  repo_ok = true;
  id = txt "a1";
  now = 1;
  encode = λ pairs. some (txt "{}");
  request_id = txt "q1";
  audited_at = 2;
  audit_ok = true;
}

abbrev site_1 : Site
site_1 = record { agents = []; trail = trail_1 }

abbrev server_agent : AgentRow
server_agent = record agent_1 { mode = mode_server; image = some (txt "img") }

abbrev deploy_call : DeployCall
deploy_call = record {
  call = call_1;
  wired = false;
  projected = none;
  publish_ok = true;
  trace_context = [];
  at = 5;
}

abbrev board_1 : Board
board_1 = record { trail = trail_1; requested = []; stopped = [] }
