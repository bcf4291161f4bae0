-- ===== src/Builds/Requests.antt =====
-- A request for a build (internal/builds/handlers.go): the agent is looked up under the caller's
-- tenant, a pending row is inserted, and build.requested published for the builder.
pub mod Effects
use ai_lab.Prelude.{Text, ℕ, Bool, true, false, Option, none, some, List, [], ◌∷◌, ◌++◌, txt}
use ai_lab.Auth.{Identity}
use ai_lab.Audit.{Trail, log, Action, Resource, Entry}
use ai_lab.Agents.{AgentRow, get_agent}
use ai_lab.Agents.Handlers.{Call, entry}
use ai_lab.Events.{BuildRequested}
use ai_lab.Builds.{Database, Build, create_build}

pub record Yard : Type 0 where
  pub db : Database
  pub trail : Trail
  pub published : List BuildRequested

-- How the calls of one request go beyond those of Call: the insertion, the publication, the span's
-- context and the clock of the process.
pub record BuildCall : Type 0 where
  pub call : Call
  pub insert_ok : Bool
  pub publish_ok : Bool
  pub trace_context : List (Text × Text)
  pub at : ℕ

abbrev pub with_row : Identity → BuildCall → Text → Text → Yard → Yard
with_row i c agent_id source_url y = record y {
  db = record y.db {
    builds = (create_build c.call.id c.call.now i.tenant_id agent_id source_url y.db.builds).0;
  };
}

abbrev pub build_event : Identity → BuildCall → Text → Text → BuildRequested
build_event i c agent_id source_url = record {
  tenant_id = i.tenant_id;
  agent_id = agent_id;
  build_id = c.call.id;
  source_url = source_url;
  trace_context = c.trace_context;
  at = c.at;
}

abbrev pub build_entry : BuildCall → Text → Text → Entry
build_entry c agent_id source_url =
    entry c.call Action.create Resource.build c.call.id
      (some ((txt "agentId", agent_id) ∷ (txt "sourceUrl", source_url) ∷ []))

-- create of a build with a source, given how the insertion and the publication go
abbrev pub submit : Identity → BuildCall → Text → Text → Bool → Bool → Yard → Yard × ℕ
submit i c agent_id source_url false publish_ok y = (y, 500)
submit i c agent_id source_url true false y = (with_row i c agent_id source_url y, 502)
submit i c agent_id source_url true true y = (
  record (with_row i c agent_id source_url y) {
    trail = log (some i) (build_entry c agent_id source_url) y.trail;
    published = y.published ++ build_event i c agent_id source_url ∷ [];
  },
  202,
)

-- create after the lookup of the agent, given whether it was served; a body that does not decode
-- is none.
abbrev pub create_found :
    Identity → BuildCall → Text → Bool → Option AgentRow → Option Text → Yard → Yard × ℕ
create_found i c agent_id false found body y = (y, 500)
create_found i c agent_id true none body y = (y, 404)
create_found i c agent_id true (some a) none y = (y, 400)
create_found i c agent_id true (some a) (some []) y = (y, 400)
create_found i c agent_id true (some a) (some (b ∷ url)) y =
    submit i c agent_id (b ∷ url) c.insert_ok c.publish_ok y

-- Handlers.create
unfoldable pub handle_create : Option Identity → BuildCall → Text → Option Text → Yard → Yard × ℕ
handle_create none c agent_id body y = (y, 401)
handle_create (some i) c agent_id body y =
    create_found i c agent_id c.call.repo_ok (get_agent i.tenant_id agent_id y.db.agents) body y
