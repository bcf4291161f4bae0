-- ===== src/Examples/Dispatches.antt =====
-- Concrete resources and events for the controller and the dispatch consumers of internal/runs.
use ai_lab.Prelude.{
  ◌≡◌, refl, Bool, true, false, none, some, List, [], ◌∷◌, arith, coalesce, txt, lookup,
}
use ai_lab.Events.{RunRequested, DeploymentRequested, DeploymentStopped}
use ai_lab.Runs.Resources.{Phase, AgentRun, JobStatus, Job, tenant_namespace}
use ai_lab.Runs.Reconcile.{World, Call, job_name_for, build_job, reconcile}
use ai_lab.Runs.Reconcile.Publication.{
  Move, reconciled, job_changed, moves, is_finished, AtMostOnce, moves-AtMostOnce, lost_completion,
}
use ai_lab.Runs.Quota.{QuotaSpec, LimitSpec, UpsertCall, Quotas}
use ai_lab.Runs.Dispatch.{
  Cluster, object_key, DispatchCall, Config, run_resource, handle_run, handle_requested,
  handle_stopped,
}
use ai_lab.Runs.Dispatch.Redelivery.{run_key, handle_run_once}
use ai_lab.Runs.Dispatch.Isolation.{dispatch_isolation}

abbrev run_event : RunRequested
run_event = record {
  tenant_id = txt "t1";
  agent_id = txt "a1";
  run_id = txt "r1";
  image = txt "img";
  inputs = none;
  trace_id = txt "tr";
  secret_ref = [];
  trace_context = [];
  at = 3;
}

abbrev all_well : Bool → Call
all_well publishes = record {
  get_run_ok = true;
  get_job_ok = true;
  create_ok = true;
  status_ok = true;
  publish_ok = publishes;
  has_bus = true;
  now = 9;
}

abbrev fresh_run : AgentRun
fresh_run = run_resource (txt "u1") run_event

abbrev new_world : World
new_world = record { run = some fresh_run; job = none; published = [] }

abbrev pub new_job : Job
new_job = build_job fresh_run (job_name_for fresh_run)

abbrev done_status : JobStatus
done_status = record {
  succeeded = 1;
  failed = 0;
  active = 0;
  start_time = some 4;
  completion_time = some 8;
}

abbrev pub done_job : Job
done_job = record new_job { status = done_status }

abbrev done_run : AgentRun
done_run = record fresh_run { status = record (fresh_run.status) { phase = Phase.succeeded } }

abbrev done_world : World
done_world = record { run = some done_run; job = some done_job; published = [] }

abbrev to_the_end : List Move
to_the_end = reconciled (all_well true) ∷ job_changed done_status ∷ reconciled (all_well true) ∷ []

moves-AtMostOnce_example : AtMostOnce (moves to_the_end new_world)
moves-AtMostOnce_example =
    moves-AtMostOnce to_the_end new_world (record { once = omega arith; only_final = λ h. refl })

abbrev no_get : Call
no_get = record (all_well true) { get_job_ok = false }

abbrev seen_world : World
seen_world = record { run = some fresh_run; job = some done_job; published = [] }

lost_completion_example :
    let after = (reconcile (all_well false) seen_world).0 in
    ((reconcile (all_well false) seen_world).1 ≡ none)
    × (is_finished after.run ≡ true)
    × ((moves to_the_end after).published ≡ [])
lost_completion_example =
    lost_completion (all_well false) seen_world fresh_run done_job to_the_end refl refl refl
      (omega arith) refl refl refl refl

abbrev served : UpsertCall
served = record { create_ok = true; get_ok = true; update_ok = true }

abbrev quota_1 : QuotaSpec
quota_1 = record { cpu = txt "4"; memory = txt "8Gi"; pods = [] }

abbrev limit_1 : LimitSpec
limit_1 = record { default_cpu = []; default_memory = []; max_cpu = txt "2"; max_memory = [] }

abbrev no_quotas : Quotas
no_quotas = record { hard = []; limits = [] }

abbrev pub config_1 : Config
config_1 = record { quota = quota_1; limit = limit_1 }

abbrev pub dispatch_1 : DispatchCall
dispatch_1 = record {
  namespace_ok = true;
  quota = served;
  limit = served;
  create_ok = true;
  get_ok = true;
  is_cached = true;
  update_ok = true;
  delete_ok = true;
  uid = txt "u1";
}

abbrev pub no_cluster : Cluster
no_cluster = record { namespaces = []; quotas = no_quotas; runs = []; deployments = [] }

abbrev pub deployment_event : DeploymentRequested
deployment_event = record {
  tenant_id = txt "t1";
  agent_id = txt "a1";
  agent_name = txt "bot";
  image = txt "img";
  port = 8080;
  health_path = txt "/healthz";
  secret_ref = [];
  trace_context = [];
  at = 4;
}

abbrev stop_event : DeploymentStopped
stop_event = record { tenant_id = txt "t1"; agent_id = txt "a1"; agent_name = txt "bot"; at = 5 }

handle_run_once_example :
    let once = (handle_run config_1 dispatch_1 (some run_event) no_cluster).0 in
    (lookup (run_key run_event) once.runs
      ≡ some (coalesce (lookup (run_key run_event) []) (run_resource (txt "u1") run_event)))
    × ((handle_run config_1 dispatch_1 (some run_event) once).0.runs ≡ once.runs)
unfolding handle_run
handle_run_once_example = handle_run_once config_1 dispatch_1 dispatch_1 run_event no_cluster refl

dispatch_isolation_example :
    let k = object_key (tenant_namespace (txt "t2")) (txt "bot") in
    (lookup k (handle_run config_1 dispatch_1 (some run_event) no_cluster).0.runs ≡ lookup k [])
    × (lookup k
          (handle_requested config_1 dispatch_1 (some deployment_event) no_cluster).0.deployments
        ≡ lookup k [])
    × (lookup k (handle_stopped dispatch_1 (some stop_event) no_cluster).0.deployments
        ≡ lookup k [])
dispatch_isolation_example =
    dispatch_isolation config_1 dispatch_1 run_event deployment_event stop_event (txt "t2")
      (txt "bot") no_cluster (omega arith) (omega arith) (λ e. ground (arith, e)) refl refl
