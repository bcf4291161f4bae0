-- ===== src/Examples/Surface.antt =====
-- A concrete run, its logs and its Secret for internal/runs and cmd/janitor.
use ai_lab.Prelude.{
  cut_prefix, Text, ◌≡◌, refl, inl, inr, true, Option, none, some, [], ◌∷◌, if◌then◌else◌, txt,
  same, In, lookup, arith,
}
use ai_lab.Runs.Rows.{RunRow, new_run}
use ai_lab.Runs.Reconcile.{build_job}
use ai_lab.Runs.Resources.{Job, run_label}
use ai_lab.Runs.Surface.{Source, lines, stream_logs}
use ai_lab.Runs.Surface.Streams.{stream_logs_isolation}
use ai_lab.Janitor.{Held, Sweep, Settings, Calls, Estate, tick}
use ai_lab.Janitor.Survivors.{tick_keeps}
use ai_lab.Vault.Projection.{KubeSecret}
use ai_lab.Examples.Auth.{caller}
use ai_lab.Examples.Audit.{archive_1, pass_1}
use ai_lab.Examples.Billing.{billing_1}
use ai_lab.Examples.Dispatches.{new_job, done_job}

abbrev run_row_1 : RunRow
run_row_1 = new_run (txt "r1") 4 (txt "t1") (txt "a1") none []

-- Two clusters without Pods, and two stores of lines that differ for another tenant.
abbrev no_pod : Text → Text → Option Source
no_pod ns run_id = none

abbrev few_lines : Text → Text → Source
few_lines tenant run_id = lines (txt "hello" ∷ []) none

abbrev own_lines : Text → Text → Source
own_lines tenant run_id =
    if same tenant (txt "t1") then lines (txt "hello" ∷ []) none else lines (txt "secret" ∷ []) none

stream_logs_isolation_example :
    stream_logs
      (some caller)
      (txt "r1")
      true
      true
      (run_row_1 ∷ [])
      (record { pod = some no_pod; loki = some few_lines })
    ≡ stream_logs
        (some caller)
        (txt "r1")
        true
        true
        (run_row_1 ∷ [])
        (record { pod = some no_pod; loki = some own_lines })
unfolding same
stream_logs_isolation_example =
    stream_logs_isolation caller (txt "r1") true true (run_row_1 ∷ []) no_pod no_pod few_lines
      own_lines refl refl

abbrev sweep_1 : Sweep
sweep_1 = record {
  namespaces_ok = true;
  list_ok = λ ns. true;
  query_ok = λ id. true;
  delete_ok = λ ns name. true;
  now = 90;
}

abbrev held_1 : Held KubeSecret
held_1 = record {
  namespace = txt "tenant-t1";
  name = txt "run-r1";
  object = record { labels = (run_label, txt "r1") ∷ []; entries = [] };
}

abbrev held_2 : Held KubeSecret
held_2 = record held_1 {
  name = txt "run-r2";
  object = record { labels = (run_label, txt "r2") ∷ []; entries = [] };
}

-- A Job that still runs, and one that completed long ago, as held_1 and held_2 have a run and none.
abbrev waiting_job : Held Job
waiting_job = record { namespace = txt "tenant-t1"; name = txt "run-r1"; object = new_job }

abbrev old_job : Held Job
old_job = record { namespace = txt "tenant-t1"; name = txt "run-r2"; object = done_job }

abbrev estate_1 : Estate
estate_1 = record {
  jobs = old_job ∷ waiting_job ∷ [];
  secrets = held_2 ∷ held_1 ∷ [];
  runs = run_row_1 ∷ [];
  builds = [];
  billing = billing_1;
  archive = archive_1;
  last_audit_export = 0;
}

abbrev settings_1 : Settings
settings_1 = record {
  job_ttl = 10;
  build_stuck = 20;
  usage_ttl = 30;
  audit_exporter = some 5;
  audit_export_interval = 40;
}

abbrev calls_1 : Calls
calls_1 = record { sweep = sweep_1; fail_ok = true; prune_ok = true; export = pass_1 }

tick_keeps_example :
    In held_1 (tick settings_1 calls_1 estate_1).secrets
    × In waiting_job (tick settings_1 calls_1 estate_1).jobs
unfolding lookup same new_run build_job
tick_keeps_example =
    tick_keeps settings_1 calls_1 estate_1 held_1 waiting_job (omega arith) (inr (inl refl))
      (inl (run_row_1, inl refl, refl)) (inr (inl refl)) (inl refl)

-- The others are gone.
tick_sweeps_test :
    ((tick settings_1 calls_1 estate_1).secrets ≡ held_1 ∷ [])
    × ((tick settings_1 calls_1 estate_1).jobs ≡ waiting_job ∷ [])
unfolding tick lookup same new_run cut_prefix build_job
tick_sweeps_test = (refl, refl)
