-- ===== src/Runs/Reconcile.antt =====
-- The reconciler of AgentRun (internal/runs/controller.go), for one resource and its Job: the
-- objects under the request's key, and what went out on the bus. The outcome of each call of the
-- API server or the bus, and the clock, are the fields of a `Call`.
pub mod Publication
use ai_lab.Prelude.{
  ℕ, Bool, true, false, not, ◌||◌, Option, none, some, List, [], ◌∷◌, ◌++◌, ltb, if◌then◌else◌,
  coalesce, Text, txt, is_empty,
}
use ai_lab.Events.{RunStatus, RunStarted, RunCompleted}
use ai_lab.Runs.Resources.{
  Phase, unset, pending, running, AgentRunStatus, AgentRun, JobStatus, Job, new_job_status,
  tenant_label, agent_label, run_label, succeeded, failed,
}

pub data Message : Type 0 where
  run_started : RunStarted → Message
  run_completed : RunCompleted → Message

pub record World : Type 0 where
  pub run : Option AgentRun
  pub job : Option Job
  pub published : List Message

pub data Failure : Type 0 where
  get_run get_job create_job status_pending status_update : Failure

-- `has_bus` is r.Bus != nil.
pub record Call : Type 0 where
  pub get_run_ok : Bool
  pub get_job_ok : Bool
  pub create_ok : Bool
  pub status_ok : Bool
  pub publish_ok : Bool
  pub has_bus : Bool
  pub now : ℕ

-- jobNameFor
unfoldable pub job_name_for : AgentRun → Text
job_name_for run = txt "run-" ++ run.name

abbrev pub var_if_set : Text → Text → List (Text × Text)
var_if_set name value = if is_empty value then [] else (name, value) ∷ []

-- buildJob
unfoldable pub build_job : AgentRun → Text → Job
build_job run job_name = record {
  name = job_name;
  namespace = run.namespace;
  labels =
      (tenant_label, run.spec.tenant_id)
      ∷ (agent_label, run.spec.agent_name)
      ∷ (run_label, run.name)
      ∷ [];
  owner = record { kind = txt "AgentRun"; name = run.name; uid = run.uid; controller = true };
  parallelism = 1;
  completions = 1;
  backoff_limit = 0;
  pod_labels = (run_label, run.name) ∷ [];
  restart = false;
  containers =
      record {
        name = txt "agent";
        image = run.spec.image;
        env =
            run.spec.env
            ++ (var_if_set (txt "AGENT_TRACE_ID") run.spec.trace_id
                ++ var_if_set (txt "AGENT_INPUTS") run.spec.inputs);
        env_from = if is_empty run.spec.secret_ref then [] else run.spec.secret_ref ∷ [];
      }
      ∷ [];
  status = new_job_status;
}

abbrev pub is_final : Phase → Bool
is_final succeeded = true
is_final failed = true
is_final _ = false

abbrev pub same_phase : Phase → Phase → Bool
same_phase unset unset = true
same_phase pending pending = true
same_phase running running = true
same_phase succeeded succeeded = true
same_phase failed failed = true
same_phase _ _ = false

abbrev pub start_or : Option ℕ → Option ℕ → Option ℕ
start_or none later = later
start_or (some t) later = some t

-- The switch on the Job's status: what the run's status becomes.
unfoldable pub observe : ℕ → JobStatus → AgentRunStatus → AgentRunStatus
observe now j s =
    if ltb 0 j.succeeded
    then record s {
      phase = succeeded;
      ended_at = j.completion_time;
      started_at = start_or s.started_at j.start_time;
    }
    else if ltb 0 j.failed
    then record s {
      phase = failed;
      message = txt "job failed";
      ended_at = some now;
      started_at = start_or s.started_at j.start_time;
    }
    else if ltb 0 j.active
    then record s {
      phase = running;
      started_at = start_or s.started_at (some (coalesce j.start_time now));
    }
    else s

abbrev pub completed_event : ℕ → AgentRun → RunStatus → ℕ → RunCompleted
completed_event now run st exit =
    let ended = coalesce run.status.ended_at now in
    record {
      tenant_id = run.spec.tenant_id;
      agent_id = run.spec.agent_name;
      run_id = run.name;
      status = st;
      exit_code = coalesce run.status.exit_code exit;
      outputs = none;
      error = run.status.message;
      started_at = coalesce run.status.started_at ended;
      ended_at = ended;
    }

-- The message of publishOnTransition for the phase that the run has come to.
unfoldable pub message_for : ℕ → AgentRun → Phase → Option Message
message_for now run running = some (
    run_started (record {
      tenant_id = run.spec.tenant_id;
      agent_id = run.spec.agent_name;
      run_id = run.name;
      at = coalesce run.status.started_at now;
    }))
message_for now run succeeded = some (run_completed (completed_event now run RunStatus.succeeded 0))
message_for now run failed = some (run_completed (completed_event now run RunStatus.failed 1))
message_for now run _ = none

abbrev pub sent : Bool → Option Message → List Message → List Message
sent ok none ms = ms
sent true (some m) ms = ms ++ m ∷ []
sent false (some m) ms = ms

-- publishOnTransition: a failing publish is only logged.
unfoldable pub publish_on_transition : Call → AgentRun → Phase → List Message → List Message
unfolding message_for
publish_on_transition c run prev ms =
    if not c.has_bus || same_phase run.status.phase prev
    then ms
    else sent c.publish_ok (message_for c.now run run.status.phase) ms

-- The case of a missing Job.
unfoldable pub create_missing : Call → AgentRun → World → World × Option Failure
unfolding job_name_for build_job
create_missing c run w =
    let job = build_job run (job_name_for run) in
    let run' = record run {
      status = record (run.status) { phase = pending; job_name = job_name_for run };
    } in
    if not c.create_ok
    then (w, some create_job)
    else if not c.status_ok
    then (record w { job = some job }, some status_pending)
    else (record w { job = some job; run = some run' }, none)

-- The case of a Job that is there.
unfoldable pub follow_job : Call → AgentRun → Job → World → World × Option Failure
unfolding observe publish_on_transition
follow_job c run job w =
    let run' = record run { status = observe c.now job.status run.status } in
    if not c.status_ok then (w, some status_update) else (
      record w {
        run = some run';
        published = publish_on_transition c run' run.status.phase w.published;
      },
      none,
    )

abbrev pub with_job : Call → AgentRun → Option Job → World → World × Option Failure
with_job c run none w = create_missing c run w
with_job c run (some job) w = follow_job c run job w

abbrev pub with_run : Call → Option AgentRun → World → World × Option Failure
with_run c none w = (w, none)
with_run c (some run) w =
    if is_final run.status.phase
    then (w, none)
    else if not c.get_job_ok
    then (w, some get_job)
    else with_job c run w.job w

-- Reconcile
unfoldable pub reconcile : Call → World → World × Option Failure
unfolding create_missing follow_job
reconcile c w = if not c.get_run_ok then (w, some get_run) else with_run c w.run w
