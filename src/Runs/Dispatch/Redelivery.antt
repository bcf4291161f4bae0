-- ===== src/Runs/Dispatch/Redelivery.antt =====
-- A dispatch event that is delivered again does no more than it did.
use ai_lab.Prelude.{
  ◌≡◌, true, some, coalesce, Text, lookup, inl, inr, Option, none, [], arith, if◌then◌else◌,
  Option-cases, same, same_refl, lookup-insert, lookup-delete,
}
use ai_lab.Events.{RunRequested, DeploymentRequested, DeploymentStopped}
use ai_lab.Runs.Resources.{
  tenant_namespace, AgentDeploymentSpec, AgentDeploymentStatus, AgentDeployment,
}
use ai_lab.Runs.Dispatch.{
  Cluster, object_key, DispatchCall, Config, run_resource, handle_run, deployment_spec,
  deployment_resource, handle_requested, handle_stopped,
}

abbrev pub run_key : RunRequested → Text
run_key ev = object_key (tenant_namespace ev.tenant_id) ev.run_id

-- An acked run.requested has its AgentRun in the tenant's namespace: the one that was there, or
-- the one that the event describes. Delivered again, with any outcomes, it changes no AgentRun.
pub handle_run_once :
    (cfg : Config) (c d : DispatchCall) (ev : RunRequested) (w : Cluster)
    → (handle_run cfg c (some ev) w).1 ≡ true
    → let once = (handle_run cfg c (some ev) w).0 in
      (lookup (run_key ev) once.runs
        ≡ some (coalesce (lookup (run_key ev) w.runs) (run_resource c.uid ev)))
      × ((handle_run cfg d (some ev) once).0.runs ≡ once.runs)
unfolding handle_run
handle_run_once cfg c d ev w h =
    let k = run_key ev in
    (
      ground (arith, lookup-insert k k (run_resource c.uid ev) w.runs, same_refl k),
      ground (arith, lookup-insert k k (run_resource c.uid ev) w.runs, same_refl k),
    )

abbrev pub deployment_key : DeploymentRequested → Text
deployment_key ev = object_key (tenant_namespace ev.tenant_id) ev.agent_name

abbrev pub status_of : Option AgentDeployment → AgentDeploymentStatus
status_of none = record { url = []; ready_replicas = 0; message = [] }
status_of (some d) = d.status

abbrev pub spec_of : Option AgentDeployment → Option AgentDeploymentSpec
spec_of none = none
spec_of (some d) = some d.spec

-- An acked deployment.requested leaves its AgentDeployment with the spec of the event, the last
-- one winning, and with the status that it had, if the client's cache shows what is there.
pub handle_requested_effect :
    (cfg : Config) (c : DispatchCall) (ev : DeploymentRequested) (w : Cluster)
    → c.is_cached ≡ true
    → (handle_requested cfg c (some ev) w).1 ≡ true
    → let found = lookup (deployment_key ev) (handle_requested cfg c (some ev) w).0.deployments in
      (spec_of found ≡ some (deployment_spec ev))
      × (status_of found ≡ status_of (lookup (deployment_key ev) w.deployments))
unfolding handle_requested
handle_requested_effect cfg c ev w fresh h =
    elim (Option-cases (lookup (deployment_key ev) w.deployments)) [
      | inl e ↦ (
        ground (
          arith,
          lookup-insert (deployment_key ev) (deployment_key ev) (deployment_resource ev)
              w.deployments,
          same_refl (deployment_key ev),
        ),
        ground (
          arith,
          lookup-insert (deployment_key ev) (deployment_key ev) (deployment_resource ev)
              w.deployments,
          same_refl (deployment_key ev),
        ),
      )
      | inr (old, e) ↦ (
        ground (
          arith,
          lookup-insert (deployment_key ev) (deployment_key ev)
              (record old { spec = deployment_spec ev }) w.deployments,
          same_refl (deployment_key ev),
        ),
        ground (
          arith,
          lookup-insert (deployment_key ev) (deployment_key ev)
              (record old { spec = deployment_spec ev }) w.deployments,
          same_refl (deployment_key ev),
        ),
      )
    ]

-- An acked deployment.stopped leaves no AgentDeployment of that name in the tenant's namespace,
-- whether or not there was one, and every other one as it was.
pub handle_stopped_gone :
    (c : DispatchCall) (ev : DeploymentStopped) (w : Cluster) (k : Text)
    → (handle_stopped c (some ev) w).1 ≡ true
    → lookup k (handle_stopped c (some ev) w).0.deployments ≡ (
        if same (object_key (tenant_namespace ev.tenant_id) ev.agent_name) k
        then none
        else lookup k w.deployments)
unfolding handle_stopped
handle_stopped_gone c ev w k h = ground (
  arith,
  lookup-delete (object_key (tenant_namespace ev.tenant_id) ev.agent_name) k w.deployments,
)
