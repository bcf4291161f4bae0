-- ===== src/Agents/Deploy.antt =====
-- Deployment of a server agent (internal/agents/deploy_handlers.go): a request becomes an event for
-- the dispatch consumer. The identity of the request is in its context, if any.
pub mod Requests
use ai_lab.Prelude.{
  ℕ, zero, suc, ◌%◌, Bool, true, false, Option, none, some, List, [], ◌∷◌, ◌++◌, if◌then◌else◌,
  Text, txt, is_empty, same,
}
use ai_lab.Auth.{Identity}
use ai_lab.Audit.{Entry, Trail, log, Action, Resource}
use ai_lab.Events.{DeploymentRequested, DeploymentStopped}
use ai_lab.Manifest.{Manifest, Server, ℤ, pos, negsuc, mode_server}
use ai_lab.Agents.{AgentRow, get_agent}
use ai_lab.Agents.Handlers.{Call, entry}

-- What deploy and undeploy write and send.
pub record Board : Type 0 where
  pub trail : Trail
  pub requested : List DeploymentRequested
  pub stopped : List DeploymentStopped

-- How the calls of one request go beyond those of Call: the projection of the Secret with its name
-- or an error, whether there is a cluster and a secret store, the publication, and the clock.
pub record DeployCall : Type 0 where
  pub call : Call
  pub wired : Bool
  pub projected : Option Text
  pub publish_ok : Bool
  pub trace_context : List (Text × Text)
  pub at : ℕ

-- The image that deploy asks for.
unfoldable pub deployable_image : AgentRow → Option Text
deployable_image a =
    if same a.mode mode_server
    then (elim a.image [ none ↦ none | some i ↦ if is_empty i then none else some i ])
    else none

-- port > 0 as an int32. The low 32 bits are kept as a natural number, since a stored port is that
-- of a validated manifest, at most 65535.
abbrev pub port_of : ℤ → ℕ
port_of (pos zero) = 8080
port_of (pos (suc n)) = suc n % 4294967296
port_of (negsuc n) = 8080

abbrev pub server_port : Option Server → ℕ
server_port none = 8080
server_port (some s) = port_of s.port

abbrev pub server_health : Option Server → Text
server_health none = []
server_health (some s) = s.health_path

-- projectSecrets, given the result of its calls: none is an error.
unfoldable pub project_secrets : List Text → Bool → Option Text → Option Text
project_secrets [] wired projected = some []
project_secrets (n ∷ ns) false projected = some []
project_secrets (n ∷ ns) true projected = projected

abbrev pub deploy_event : DeployCall → AgentRow → Text → Text → DeploymentRequested
deploy_event c a image secret_ref = record {
  tenant_id = a.tenant_id;
  agent_id = a.id;
  agent_name = a.name;
  image = image;
  port = server_port a.manifest.server;
  health_path = server_health a.manifest.server;
  secret_ref = secret_ref;
  trace_context = c.trace_context;
  at = c.at;
}

abbrev pub deploy_entry : DeployCall → AgentRow → Text → Entry
deploy_entry c a image =
    entry c.call Action.deploy Resource.deployment a.id
      (some ((txt "agentName", a.name) ∷ (txt "image", image) ∷ []))

-- deploy of an agent with an image, given the projected Secret and whether it is published
abbrev pub send_deploy :
    Identity → DeployCall → AgentRow → Text → Option Text → Bool → Board → Board × ℕ
send_deploy i c a image none publish_ok b = (b, 500)
send_deploy i c a image (some ref) false b = (b, 502)
send_deploy i c a image (some ref) true b = (
  record b {
    trail = log (some i) (deploy_entry c a image) b.trail;
    requested = b.requested ++ deploy_event c a image ref ∷ [];
  },
  202,
)

abbrev pub deploy_image : Identity → DeployCall → AgentRow → Option Text → Board → Board × ℕ
deploy_image i c a none b = (b, 422)
deploy_image i c a (some image) b =
    send_deploy i c a image (project_secrets a.manifest.secrets c.wired c.projected) c.publish_ok b

-- deploy after the lookup of the agent, given whether it was served
abbrev pub deploy_found : Identity → DeployCall → Bool → Option AgentRow → Board → Board × ℕ
deploy_found i c false found b = (b, 500)
deploy_found i c true none b = (b, 404)
deploy_found i c true (some a) b = deploy_image i c a (deployable_image a) b

-- DeployHandlers.deploy
unfoldable pub handle_deploy :
    Option Identity → DeployCall → Text → List AgentRow → Board → Board × ℕ
unfolding project_secrets
handle_deploy none c id agents b = (b, 401)
handle_deploy (some i) c id agents b =
    deploy_found i c c.call.repo_ok (get_agent i.tenant_id id agents) b

abbrev pub stop_event : DeployCall → AgentRow → DeploymentStopped
stop_event c a = record { tenant_id = a.tenant_id; agent_id = a.id; agent_name = a.name; at = c.at }

abbrev pub stop_entry : DeployCall → AgentRow → Entry
stop_entry c a =
    entry c.call Action.undeploy Resource.deployment a.id (some ((txt "agentName", a.name) ∷ []))

abbrev pub send_stop : Identity → DeployCall → AgentRow → Bool → Board → Board × ℕ
send_stop i c a false b = (b, 502)
send_stop i c a true b = (
  record b {
    trail = log (some i) (stop_entry c a) b.trail;
    stopped = b.stopped ++ stop_event c a ∷ [];
  },
  202,
)

abbrev pub undeploy_found : Identity → DeployCall → Bool → Option AgentRow → Board → Board × ℕ
undeploy_found i c false found b = (b, 500)
undeploy_found i c true none b = (b, 404)
undeploy_found i c true (some a) b = send_stop i c a c.publish_ok b

-- DeployHandlers.undeploy
unfoldable pub handle_undeploy :
    Option Identity → DeployCall → Text → List AgentRow → Board → Board × ℕ
handle_undeploy none c id agents b = (b, 401)
handle_undeploy (some i) c id agents b =
    undeploy_found i c c.call.repo_ok (get_agent i.tenant_id id agents) b
