-- ===== src/Janitor.antt =====
-- The janitor (cmd/janitor/main.go): tick, with its passes over the cluster, gcJobs and
-- gcOrphanSecrets, and exportAudit. Its passes over the tables, failStuckBuilds and gcUsageEvents,
-- stand in Builds and Billing. Whether a call is served is an argument; the clock is past every
-- threshold.
pub mod Survivors
use ai_lab.Prelude.{
  Text, ℕ, ◌-◌, Bool, true, false, not, ◌&&◌, Option, none, some, List, [], ltb, if◌then◌else◌,
  is_some, txt, is_empty, same, cut_prefix, any, delete_where, lookup,
}
use ai_lab.Audit.{Pass, Archive, export_run}
use ai_lab.Billing.{State, gc_usage_events}
use ai_lab.Builds.{BuildRow, fail_stuck_builds}
use ai_lab.Runs.Resources.{Job, run_label}
use ai_lab.Runs.Rows.{RunRow}
use ai_lab.Vault.Projection.{KubeSecret}

-- An object of a namespace, by its name.
pub record Held (V : Type 0) : Type 0 where
  pub namespace : Text
  pub name : Text
  pub object : V

-- Whether the lists and the deletions are served, by namespace and name.
pub record Sweep : Type 0 where
  pub namespaces_ok : Bool
  pub list_ok : Text → Bool
  pub query_ok : Text → Bool
  pub delete_ok : Text → Text → Bool
  pub now : ℕ

-- The namespaces that the passes look into
abbrev pub in_tenant : Text → Bool
in_tenant ns = is_some (cut_prefix (txt "tenant-") ns)

abbrev pub is_old : ℕ → Option ℕ → Bool
is_old cutoff none = false
is_old cutoff (some t) = not (ltb cutoff t)

-- A Job that gcJobs deletes
abbrev pub is_swept : Sweep → ℕ → Held Job → Bool
is_swept x job_ttl j =
    in_tenant j.namespace
    && (x.list_ok j.namespace
        && (is_old (x.now - job_ttl) j.object.status.completion_time
            && x.delete_ok j.namespace j.name))

unfoldable pub gc_jobs : Sweep → ℕ → List (Held Job) → List (Held Job)
gc_jobs x job_ttl jobs = if x.namespaces_ok then delete_where (is_swept x job_ttl) jobs else jobs

abbrev pub label_of : Option Text → Text
label_of none = []
label_of (some v) = v

abbrev pub run_of : KubeSecret → Text
run_of s = label_of (lookup run_label s.labels)

-- A Secret that gcOrphanSecrets deletes: it has the label, with a value, and no run has that id.
abbrev pub is_orphan : Sweep → List RunRow → Held KubeSecret → Bool
is_orphan x runs s =
    let run_id = run_of s.object in
    in_tenant s.namespace
    && (x.list_ok s.namespace
        && (not (is_empty run_id)
            && (x.query_ok run_id
                && (not (any (λ r. same r.id run_id) runs) && x.delete_ok s.namespace s.name))))

unfoldable pub gc_orphan_secrets :
    Sweep → List RunRow → List (Held KubeSecret) → List (Held KubeSecret)
gc_orphan_secrets x runs secrets =
    if x.namespaces_ok then delete_where (is_orphan x runs) secrets else secrets

-- exportAudit, with an exporter or none: the archive, and the time of the last export. The zero
-- time is 0.
abbrev pub export_due : ℕ → Pass → ℕ → Archive × Bool → ℕ → Archive × ℕ
export_due n p now (s, true) last = (s, now)
export_due n p now (s, false) last = (s, last)

unfoldable pub export_audit : Option ℕ → Pass → ℕ → ℕ → Archive → ℕ → Archive × ℕ
export_audit none p interval now s last = (s, last)
export_audit (some n) p interval now s last =
    if ltb (now - last) interval then (s, last) else export_due n p now (export_run n p s) last

-- What the janitor works on: the objects of the cluster, the tables, the archive, and the time of
-- the last export, which is its own.
pub record Estate : Type 0 where
  pub jobs : List (Held Job)
  pub secrets : List (Held KubeSecret)
  pub runs : List RunRow
  pub builds : List BuildRow
  pub billing : State
  pub archive : Archive
  pub last_audit_export : ℕ

-- The fields that main sets; no exporter is none, else its batch size.
pub record Settings : Type 0 where
  pub job_ttl : ℕ
  pub build_stuck : ℕ
  pub usage_ttl : ℕ
  pub audit_exporter : Option ℕ
  pub audit_export_interval : ℕ

-- How the calls of one tick go.
pub record Calls : Type 0 where
  pub sweep : Sweep
  pub fail_ok : Bool
  pub prune_ok : Bool
  pub export : Pass

abbrev pub exported : Settings → Calls → Estate → Archive × ℕ
exported j c e =
    export_audit j.audit_exporter c.export j.audit_export_interval c.sweep.now e.archive
      e.last_audit_export

-- janitor.tick, all passes at one reading of the clock
unfoldable pub tick : Settings → Calls → Estate → Estate
unfolding gc_jobs gc_orphan_secrets export_audit
tick j c e = record {
  jobs = gc_jobs c.sweep j.job_ttl e.jobs;
  secrets = gc_orphan_secrets c.sweep e.runs e.secrets;
  runs = e.runs;
  builds = if c.fail_ok then fail_stuck_builds c.sweep.now j.build_stuck e.builds else e.builds;
  billing = if c.prune_ok then gc_usage_events c.sweep.now j.usage_ttl e.billing else e.billing;
  archive = (exported j c e).0;
  last_audit_export = (exported j c e).1;
}
