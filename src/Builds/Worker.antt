-- ===== src/Builds/Worker.antt =====
-- The builder's worker (cmd/builder/main.go): a queued build becomes up to three Jobs, one after
-- the other, and ends in one completion. The cluster's answer to each Job is an oracle: `none` for
-- a Job that succeeds, else the text of runJob's error. A log line is dropped, since nothing reads
-- it; so are the results of complete and handle, which the caller ignores.
use ai_lab.Agents.{AgentRow, get_agent}
use ai_lab.Prelude.{
  ℕ, Bool, Option, none, some, List, [], ◌∷◌, ◌++◌, ltb, if◌then◌else◌, coalesce, Text, txt,
}
use ai_lab.Builds.Jobs.{BuildConfig, BuildJob, build_kaniko_job, build_trivy_job, build_cosign_job}
use ai_lab.Events.{BuildStatus, BuildRequested, BuildCompleted}
use ai_lab.Builds.{Status, Database, mark_running, mark_completed}

-- What the worker writes and sends: the database, the Jobs it has created, the events it has
-- published, in order.
pub record World : Type 0 where
  pub db : Database
  pub jobs : List BuildJob
  pub published : List BuildCompleted

-- One look of runJob's loop at its Job: the Get fails, or the counts and the first JobFailed
-- message. A context that ends stops the loop as a failing Get does, with its own text.
pub data Poll : Type 0 where
  get_error : Text → Poll
  counts : ℕ → ℕ → Option Text → Poll

-- runJob after the creation of the Job: the looks up to the deadline, where it gives up.
unfoldable pub poll_job : Text → List Poll → Option Text
poll_job name [] = some (name ++ txt " timed out")
poll_job name (get_error e ∷ ps) = some e
poll_job name (counts ok bad message ∷ ps) =
    let rest = poll_job name ps in
    if ltb 0 ok
    then none
    else if ltb 0 bad
    then some (name ++ txt " failed: " ++ coalesce message (txt "job failed"))
    else rest

-- The answer of the API server to a creation.
pub data Creation : Type 0 where
  created already_exists : Creation
  refused : Text → Creation

-- How the calls of one run of handle go: those for each Job, the lookup of the agent apart from a
-- missing row, the two writes of the build's row, and the publication.
pub record Cluster : Type 0 where
  pub creation : BuildJob → Creation
  pub polls : BuildJob → List Poll
  pub lookup_error : Option Text
  pub running_ok : Bool
  pub completed_ok : Bool
  pub publish_ok : Bool

-- runJob: the world, and the error or `none`. Under a name that exists already no Job is added.
unfoldable pub run_job : Cluster → BuildJob → World → World × Option Text
unfolding poll_job
run_job k job w = elim (k.creation job) [
  | created ↦ (record w { jobs = w.jobs ++ job ∷ [] }, poll_job job.name (k.polls job))
  | already_exists ↦ (w, poll_job job.name (k.polls job))
  | refused e ↦ (w, some (txt "create " ++ job.name ++ txt ": " ++ e))
]

abbrev pub event_status : Status → BuildStatus
event_status Status.succeeded = BuildStatus.succeeded
event_status Status.blocked = BuildStatus.blocked
event_status _ = BuildStatus.failed

abbrev pub done_event : ℕ → BuildRequested → Status → Text → Text → BuildCompleted
done_event now ev status image err_msg = record {
  tenant_id = ev.tenant_id;
  agent_id = ev.agent_id;
  build_id = ev.build_id;
  status = event_status status;
  image = image;
  error = err_msg;
  ended_at = now;
}

-- complete: a failing write is only logged, and the event goes out all the same.
unfoldable pub complete : Cluster → ℕ → BuildRequested → Status → Text → Text → World → World
complete k now ev status image err_msg w = record w {
  db = if k.completed_ok then mark_completed ev.build_id status image err_msg now w.db else w.db;
  published =
      if k.publish_ok
      then w.published ++ done_event now ev status image err_msg ∷ []
      else w.published;
}

unfoldable pub image_ref : BuildConfig → BuildRequested → AgentRow → Text
image_ref cfg ev agent =
    cfg.registry ++ b'/' ∷ (ev.tenant_id ++ b'/' ∷ (agent.name ++ b':' ∷ ev.build_id))

-- The third step of handle.
unfoldable pub sign_and_finish : BuildConfig → Cluster → ℕ → BuildRequested → Text → World → World
sign_and_finish cfg k now ev ref w =
    if cfg.cosign_enabled
    then (let (w', err) =
          run_job k
            (build_cosign_job (txt "sign-" ++ ev.build_id) cfg.namespace cfg.cosign_image
              cfg.cosign_secret cfg.cosign_key_path ref)
            w in
        elim err [
          | none ↦ complete k now ev Status.succeeded ref [] w'
          | some e ↦ complete k now ev Status.failed [] (txt "cosign: " ++ e) w'
        ])
    else complete k now ev Status.succeeded ref [] w

-- The second step of handle, with what follows it.
unfoldable pub scan_and_sign : BuildConfig → Cluster → ℕ → BuildRequested → Text → World → World
scan_and_sign cfg k now ev ref w =
    if cfg.trivy_enabled
    then (let (w', err) =
          run_job k
            (build_trivy_job (txt "scan-" ++ ev.build_id) cfg.namespace cfg.trivy_image
              cfg.trivy_severity ref)
            w in
        elim err [
          | none ↦ sign_and_finish cfg k now ev ref w'
          | some e ↦ complete k now ev Status.blocked [] (txt "trivy: " ++ e) w'
        ])
    else sign_and_finish cfg k now ev ref w

-- MarkRunning, whose error is only logged.
abbrev pub begun : Cluster → BuildRequested → World → World
begun k ev w = record w {
  db = record w.db {
    builds = if k.running_ok then mark_running ev.build_id w.db.builds else w.db.builds;
  };
}

-- handle once the agent is found
unfoldable pub build_image : BuildConfig → Cluster → ℕ → BuildRequested → AgentRow → World → World
build_image cfg k now ev agent w =
    let ref = image_ref cfg ev agent in
    let (w', err) =
      run_job k
        (build_kaniko_job (txt "build-" ++ ev.build_id) cfg.namespace cfg.kaniko_image ev.source_url
          ref)
        w in
    elim err [
      | none ↦ scan_and_sign cfg k now ev ref w'
      | some e ↦ complete k now ev Status.failed [] (txt "kaniko: " ++ e) w'
    ]

-- handle after the lookup of the agent: an error of it, or what it finds.
unfoldable pub with_agent :
    BuildConfig → Cluster → ℕ → BuildRequested → Option Text → Option AgentRow → World → World
with_agent cfg k now ev (some e) found w =
    complete k now ev Status.failed [] (txt "resolve agent: " ++ e) w
with_agent cfg k now ev none none w =
    complete k now ev Status.failed [] (txt "resolve agent: not found") w
with_agent cfg k now ev none (some agent) w = build_image cfg k now ev agent w

-- handle on a payload that decodes.
unfoldable pub handle : BuildConfig → Cluster → ℕ → BuildRequested → World → World
unfolding with_agent
handle cfg k now ev w0 =
    let w = begun k ev w0 in
    with_agent cfg k now ev k.lookup_error (get_agent ev.tenant_id ev.agent_id w.db.agents) w
