-- ===== src/Events.antt =====
-- The payloads of the event bus (pkg/events/events.go).
-- A time is a number of nanoseconds, 0 for Go's zero time. A decoded JSON object, of type
-- map[string]any, is kept as its encoding; a nil map is `none`. Exit codes are taken without sign.
use ai_lab.Prelude.{ℕ, List, Option, Text}

-- The string type RunStatus; `other` is any string that is none of the constants.
pub data RunStatus : Type 0 where
  succeeded failed timed_out cancelled : RunStatus
  other : Text → RunStatus

pub data BuildStatus : Type 0 where
  succeeded failed blocked : BuildStatus

pub record RunRequested : Type 0 where
  pub tenant_id : Text
  pub agent_id : Text
  pub run_id : Text
  pub image : Text
  pub inputs : Option Text
  pub trace_id : Text
  pub secret_ref : Text
  pub trace_context : List (Text × Text)
  pub at : ℕ

pub record RunStarted : Type 0 where
  pub tenant_id : Text
  pub agent_id : Text
  pub run_id : Text
  pub at : ℕ

pub record RunCompleted : Type 0 where
  pub tenant_id : Text
  pub agent_id : Text
  pub run_id : Text
  pub status : RunStatus
  pub exit_code : ℕ
  pub outputs : Option Text
  pub error : Text
  pub started_at : ℕ
  pub ended_at : ℕ

pub record BuildRequested : Type 0 where
  pub tenant_id : Text
  pub agent_id : Text
  pub build_id : Text
  pub source_url : Text
  pub trace_context : List (Text × Text)
  pub at : ℕ

pub record BuildCompleted : Type 0 where
  pub tenant_id : Text
  pub agent_id : Text
  pub build_id : Text
  pub status : BuildStatus
  pub image : Text
  pub error : Text
  pub ended_at : ℕ

pub record DeploymentRequested : Type 0 where
  pub tenant_id : Text
  pub agent_id : Text
  pub agent_name : Text
  pub image : Text
  pub port : ℕ
  pub health_path : Text
  pub secret_ref : Text
  pub trace_context : List (Text × Text)
  pub at : ℕ

pub record DeploymentStopped : Type 0 where
  pub tenant_id : Text
  pub agent_id : Text
  pub agent_name : Text
  pub at : ℕ
