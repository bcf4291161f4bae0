-- ===== src/Examples/Manifests.antt =====
-- A concrete manifest for pkg/manifest.
use ai_lab.Prelude.{◌≡◌, ◌↔◌, none, some, [], ◌∷◌, txt}
use ai_lab.Agents.{AgentRow, agent_row}
use ai_lab.Manifest.{Manifest, validate, schema_version, mode_job, runtime_container, trigger_cron}
use ai_lab.Manifest.WellFormed.{IsWellFormed, validate_iff}

abbrev pub manifest_1 : Manifest
manifest_1 = record {
  schema_version = schema_version;
  name = txt "nightly";
  mode = mode_job;
  runtime = runtime_container;
  image = txt "img";
  entrypoint = [];
  inputs = none;
  outputs = none;
  env = [];
  secrets = [];
  resources = record { cpu = []; memory = []; timeout = []; disk_size = [] };
  triggers =
      record { kind = trigger_cron; name = txt "n"; cron = txt "0 2 * * *"; webhook = none } ∷ [];
  server = none;
}

abbrev pub agent_1 : AgentRow
agent_1 = agent_row (txt "a1") 1 (txt "t1") manifest_1

validate_iff_example : (validate (some manifest_1) ≡ none) ↔ IsWellFormed manifest_1
validate_iff_example = validate_iff manifest_1
