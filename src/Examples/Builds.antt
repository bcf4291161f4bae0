-- ===== src/Examples/Builds.antt =====
-- A concrete build for internal/builds and cmd/builder.
use ai_lab.Agents.{AgentRow, get_agent}
use ai_lab.Prelude.{
  ◌≡◌, refl, true, false, none, some, List, [], ◌∷◌, All, txt, same, select, ap, ◌≢◌, Option, Text,
}
use ai_lab.Events.{BuildRequested}
use ai_lab.Examples.Manifests.{agent_1}
use ai_lab.Builds.{Status, Database, create_build, mark_running, is_terminal, mark_completed}
use ai_lab.Builds.Jobs.{BuildConfig, build_kaniko_job, build_trivy_job}
use ai_lab.Builds.Worker.{
  World, counts, created, Cluster, image_ref, handle, poll_job, run_job, complete, sign_and_finish,
  scan_and_sign, build_image, with_agent,
}
use ai_lab.Builds.Lifecycle.{Write, run, sweep, build_completed_once}
use ai_lab.Builds.Stages.{Vetted}
use ai_lab.Builds.Promotion.{handle_ends_build, handle_promotes}

abbrev build_event : BuildRequested
build_event = record {
  tenant_id = txt "t1";
  agent_id = txt "a1";
  build_id = txt "b1";
  source_url = txt "git+https://host/repo";
  trace_context = [];
  at = 3;
}

abbrev db_1 : Database
db_1 = record {
  builds = (create_build (txt "b1") 2 (txt "t1") (txt "a1") (txt "git+https://host/repo") []).0;
  agents = record agent_1 { name = txt "bot"; runtime = txt "python"; image = none } ∷ [];
}

abbrev build_world : World
build_world = record { db = db_1; jobs = []; published = [] }

abbrev build_config : BuildConfig
build_config = record {
  namespace = txt "builds";
  registry = txt "reg";
  kaniko_image = txt "kaniko";
  trivy_enabled = true;
  trivy_image = txt "trivy";
  trivy_severity = txt "HIGH";
  cosign_enabled = false;
  cosign_image = [];
  cosign_secret = [];
  cosign_key_path = [];
}

-- Every Job is created, runs a while, and succeeds.
abbrev good_cluster : Cluster
good_cluster = record {
  creation = λ job. created;
  polls = λ job. counts 0 0 none ∷ counts 1 0 none ∷ [];
  lookup_error = none;
  running_ok = true;
  completed_ok = true;
  publish_ok = true;
}

abbrev build_writes : List Write
build_writes =
    run (txt "b1") ∷ Write.complete (txt "b1") Status.succeeded (txt "img") [] 9 ∷ sweep 100 10 ∷ []

build_completed_once_example :
    mark_completed
      (txt "b1")
      Status.failed
      []
      (txt "late")
      10
      (mark_completed (txt "b1") Status.succeeded (txt "img") [] 9 db_1)
    ≡ mark_completed (txt "b1") Status.succeeded (txt "img") [] 9 db_1
build_completed_once_example =
    build_completed_once (txt "b1") Status.succeeded Status.failed (txt "img") [] [] (txt "late") 9
      10 db_1 refl

handle_ends_build_example :
    All
      (λ r. is_terminal r.status ≡ true)
      (select
        (λ r. same r.id (txt "b1"))
        (handle build_config good_cluster 9 build_event build_world).db.builds)
handle_ends_build_example =
    handle_ends_build build_config good_cluster 9 build_event build_world refl

-- The image of the first agent.
abbrev first_image : List AgentRow → Option Text
first_image [] = none
first_image (a ∷ rows) = a.image

agent_changed : (handle build_config good_cluster 9 build_event build_world).db.agents ≢ db_1.agents
unfolding handle with_agent build_image scan_and_sign sign_and_finish complete run_job poll_job
    get_agent build_kaniko_job build_trivy_job image_ref mark_running mark_completed create_build
    same
agent_changed e = is_changed (ap first_image e)
  where
    is_changed : {s : Text} → some s ≢ none
    is_changed h = cc

handle_promotes_example :
    (agent : AgentRow) × (get_agent (txt "t1") (txt "a1") db_1.agents ≡ some agent)
    × Vetted build_config good_cluster build_event (image_ref build_config build_event agent)
handle_promotes_example =
    handle_promotes build_config good_cluster 9 build_event build_world agent_changed
