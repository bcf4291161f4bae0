-- ===== src/Runs/Dispatch.antt =====
-- The consumers that turn run.requested, deployment.requested and deployment.stopped into custom
-- resources (internal/runs/dispatch_consumer.go and deployment_consumer.go). The resources of a
-- kind stand under their namespace and name. A handler returns true for nil.
pub mod Isolation
pub mod Redelivery
use ai_lab.Prelude.{
  ◌/◌, Bool, true, false, not, Option, none, some, List, [], ◌∷◌, ◌++◌, if◌then◌else◌, coalesce,
  Text, txt, lookup, insert, delete,
}
use ai_lab.Events.{RunRequested, DeploymentRequested, DeploymentStopped}
use ai_lab.Runs.Resources.{
  unset, AgentRun, AgentDeploymentSpec, AgentDeployment, tenant_label, agent_label,
  tenant_namespace,
}
use ai_lab.Runs.Quota.{QuotaSpec, LimitSpec, UpsertCall, Quotas, ensure_tenant_quotas}

pub record Cluster : Type 0 where
  pub namespaces : List (Text × Unit {0})
  pub quotas : Quotas
  pub runs : List (Text × AgentRun)
  pub deployments : List (Text × AgentDeployment)

-- The key of a namespaced object; a namespace holds no slash.
abbrev pub object_key : Text → Text → Text
object_key ns name = ns ++ (txt "/" ++ name)

-- Whether each call of the API server is served, apart from AlreadyExists and NotFound, which
-- follow from the state; whether the client's cache shows the object that Get asks for, if the server
-- has it; and what the server and json fill in.
pub record DispatchCall : Type 0 where
  pub namespace_ok : Bool
  pub quota : UpsertCall
  pub limit : UpsertCall
  pub create_ok : Bool
  pub get_ok : Bool
  pub is_cached : Bool
  pub update_ok : Bool
  pub delete_ok : Bool
  pub uid : Text

pub record Config : Type 0 where
  pub quota : QuotaSpec
  pub limit : LimitSpec

-- Create of an object; AlreadyExists leaves the one that is there.
abbrev pub create_new {ℓ} : {V : Type ℓ} → Text → V → List (Text × V) → List (Text × V)
create_new k v m = elim (lookup k m) [ none ↦ insert k v m | some old ↦ m ]

-- ensureNamespace of both consumers: AlreadyExists counts as success.
unfoldable pub ensure_namespace : Bool → Text → Cluster → Cluster × Bool
ensure_namespace call_ok name w =
    if call_ok
    then (record w { namespaces = create_new name tt w.namespaces }, true)
    else (w, false)

-- The namespace and its quotas, which both consumers set up first. A failure of the quotas is
-- only logged.
unfoldable pub prepare : Config → DispatchCall → Text → Cluster → Cluster × Bool
unfolding ensure_namespace
prepare cfg c ns w =
    let (w', made) = ensure_namespace c.namespace_ok ns w in
    if not made then (w', false) else (
      record w' {
        quotas = (ensure_tenant_quotas c.quota c.limit ns cfg.quota cfg.limit w'.quotas).0;
      },
      true,
    )

-- The AgentRun of an event, as the API server first stores it.
abbrev pub run_resource : Text → RunRequested → AgentRun
run_resource uid ev = record {
  name = ev.run_id;
  namespace = tenant_namespace ev.tenant_id;
  uid = uid;
  labels = (tenant_label, ev.tenant_id) ∷ (agent_label, ev.agent_id) ∷ [];
  spec = record {
    tenant_id = ev.tenant_id;
    agent_name = ev.agent_id;
    image = ev.image;
    inputs = coalesce ev.inputs [];
    env = [];
    secrets = [];
    secret_ref = ev.secret_ref;
    cpu = [];
    memory = [];
    timeout = [];
    trace_id = ev.trace_id;
  };
  status = record {
    phase = unset;
    job_name = [];
    started_at = none;
    ended_at = none;
    exit_code = none;
    message = [];
  };
}

-- DispatchConsumer.handle, with the decoded event.
unfoldable pub handle_run : Config → DispatchCall → Option RunRequested → Cluster → Cluster × Bool
unfolding prepare
handle_run cfg c none w = (w, false)
handle_run cfg c (some ev) w =
    let ns = tenant_namespace ev.tenant_id in
    let (w', ready) = prepare cfg c ns w in
    if not ready then (w', false) else if not c.create_ok then (w', false) else (
      record w' { runs = create_new (object_key ns ev.run_id) (run_resource c.uid ev) w'.runs },
      true,
    )

abbrev pub deployment_spec : DeploymentRequested → AgentDeploymentSpec
deployment_spec ev = record {
  tenant_id = ev.tenant_id;
  agent_name = ev.agent_id;
  image = ev.image;
  port = ev.port;
  health_path = ev.health_path;
  idle_timeout = [];
  env = [];
  secrets = [];
  secret_ref = ev.secret_ref;
}

abbrev pub deployment_resource : DeploymentRequested → AgentDeployment
deployment_resource ev = record {
  name = ev.agent_name;
  namespace = tenant_namespace ev.tenant_id;
  labels = (tenant_label, ev.tenant_id) ∷ (agent_label, ev.agent_id) ∷ [];
  spec = deployment_spec ev;
  status = record { url = []; ready_replicas = 0; message = [] };
}

-- What Get reads from the client's cache
abbrev pub cached_view {ℓ} : {V : Type ℓ} → Bool → Option V → Option V
cached_view true o = o
cached_view false o = none

-- The Get, and then the Create or the Update of handleRequested. A Create that finds the object there
-- counts as success, and leaves it as it is.
abbrev pub put_deployment : DispatchCall → Text → DeploymentRequested → Cluster → Cluster × Bool
put_deployment c key ev w =
    if not c.get_ok then (w, false) else elim (cached_view c.is_cached (lookup key w.deployments)) [
      | none ↦ if not c.create_ok then (w, false) else (
        record w { deployments = create_new key (deployment_resource ev) w.deployments },
        true,
      )
      | some existing ↦ if not c.update_ok then (w, false) else (
        record w {
          deployments = insert key (record existing { spec = deployment_spec ev }) w.deployments;
        },
        true,
      )
    ]

-- DeploymentDispatchConsumer.handleRequested
unfoldable pub handle_requested :
    Config → DispatchCall → Option DeploymentRequested → Cluster → Cluster × Bool
unfolding prepare
handle_requested cfg c none w = (w, false)
handle_requested cfg c (some ev) w =
    let ns = tenant_namespace ev.tenant_id in
    let (w', ready) = prepare cfg c ns w in
    if not ready then (w', false) else put_deployment c (object_key ns ev.agent_name) ev w'

-- DeploymentDispatchConsumer.handleStopped: NotFound counts as success.
unfoldable pub handle_stopped : DispatchCall → Option DeploymentStopped → Cluster → Cluster × Bool
handle_stopped c none w = (w, false)
handle_stopped c (some ev) w = if not c.delete_ok then (w, false) else (
  record w {
    deployments = delete (object_key (tenant_namespace ev.tenant_id) ev.agent_name) w.deployments;
  },
  true,
)
