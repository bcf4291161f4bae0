-- ===== src/Runs/Resources.antt =====
-- The custom resources of the cluster (internal/runs/types.go) and the parts of the Kubernetes
-- objects that the program writes or reads. A Go map is the list of its entries, in the order in
-- which a loop over it meets them.
use ai_lab.Prelude.{ℕ, Bool, Option, none, List, ◌++◌, Text, txt}

-- AgentRunPhase; `unset` is the empty string of a new resource.
pub data Phase : Type 0 where
  unset pending running succeeded failed : Phase

pub record AgentRunSpec : Type 0 where
  pub tenant_id : Text
  pub agent_name : Text
  pub image : Text
  pub inputs : Text
  pub env : List (Text × Text)
  pub secrets : List Text
  pub secret_ref : Text
  pub cpu : Text
  pub memory : Text
  pub timeout : Text
  pub trace_id : Text

pub record AgentRunStatus : Type 0 where
  pub phase : Phase
  pub job_name : Text
  pub started_at : Option ℕ
  pub ended_at : Option ℕ
  pub exit_code : Option ℕ
  pub message : Text

pub record AgentRun : Type 0 where
  pub name : Text
  pub namespace : Text
  pub uid : Text
  pub labels : List (Text × Text)
  pub spec : AgentRunSpec
  pub status : AgentRunStatus

pub record AgentDeploymentSpec : Type 0 where
  pub tenant_id : Text
  pub agent_name : Text
  pub image : Text
  pub port : ℕ
  pub health_path : Text
  pub idle_timeout : Text
  pub env : List (Text × Text)
  pub secrets : List Text
  pub secret_ref : Text

pub record AgentDeploymentStatus : Type 0 where
  pub url : Text
  pub ready_replicas : ℕ
  pub message : Text

pub record AgentDeployment : Type 0 where
  pub name : Text
  pub namespace : Text
  pub labels : List (Text × Text)
  pub spec : AgentDeploymentSpec
  pub status : AgentDeploymentStatus

-- A container's environment: the listed variables, and the Secrets projected by EnvFrom.
pub record Container : Type 0 where
  pub name : Text
  pub image : Text
  pub env : List (Text × Text)
  pub env_from : List Text

pub record OwnerReference : Type 0 where
  pub kind : Text
  pub name : Text
  pub uid : Text
  pub controller : Bool

-- batchv1.JobStatus, the part that is read.
pub record JobStatus : Type 0 where
  pub succeeded : ℕ
  pub failed : ℕ
  pub active : ℕ
  pub start_time : Option ℕ
  pub completion_time : Option ℕ

pub record Job : Type 0 where
  pub name : Text
  pub namespace : Text
  pub labels : List (Text × Text)
  pub owner : OwnerReference
  pub parallelism : ℕ
  pub completions : ℕ
  pub backoff_limit : ℕ
  pub pod_labels : List (Text × Text)
  pub restart : Bool
  pub containers : List Container
  pub status : JobStatus

abbrev pub new_job_status : JobStatus
new_job_status = record {
  succeeded = 0;
  failed = 0;
  active = 0;
  start_time = none;
  completion_time = none;
}

abbrev pub tenant_label : Text
tenant_label = txt "ailab.uipath.com/tenant"

abbrev pub agent_label : Text
agent_label = txt "ailab.uipath.com/agent"

abbrev pub run_label : Text
run_label = txt "ailab.uipath.com/run"

abbrev pub deployment_label : Text
deployment_label = txt "ailab.uipath.com/deployment"

-- tenantNamespace of dispatch_consumer.go
abbrev pub tenant_namespace : Text → Text
tenant_namespace tenant_id = txt "tenant-" ++ tenant_id
