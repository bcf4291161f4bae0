-- ===== src/Vault/Projection.antt =====
-- The projection of secrets into a tenant's namespace (internal/secrets/materialize.go) and the
-- HTTP surface of the table (handlers.go). The cluster's Secrets stand under their namespace and
-- name. Whether each call is served is a field of the call.
pub mod Contents
use ai_lab.Prelude.{
  Text, Bool, true, false, ◌&&◌, Option, none, some, List, [], ◌∷◌, ◌++◌, if◌then◌else◌, txt,
  lookup, insert,
}
use ai_lab.Auth.{Identity}
use ai_lab.Audit.{Trail, log, Action, Resource}
use ai_lab.Agents.Handlers.{Call, entry}
use ai_lab.Runs.Dispatch.{object_key, create_new}
use ai_lab.Runs.Resources.{tenant_label, agent_label, run_label, tenant_namespace}
use ai_lab.Runs.Serving.{merge_map}
use ai_lab.Vault.{Aead}

-- corev1.Secret of type Opaque
pub record KubeSecret : Type 0 where
  pub labels : List (Text × Text)
  pub entries : List (Text × Text)

pub record Kube : Type 0 where
  pub namespaces : List (Text × Unit {0})
  pub secrets : List (Text × KubeSecret)

pub record KubeCall : Type 0 where
  pub namespace_ok : Bool
  pub create_ok : Bool
  pub get_ok : Bool
  pub update_ok : Bool

-- EnsureTenantNamespace: AlreadyExists counts as success.
abbrev pub ensure_tenant_namespace : Bool → Text → Kube → Kube × Bool
ensure_tenant_namespace true tenant_id w =
    (record w { namespaces = create_new (tenant_namespace tenant_id) tt w.namespaces }, true)
ensure_tenant_namespace false tenant_id w = (w, false)

abbrev pub replace : List (Text × Text) → List (Text × Text) → KubeSecret → KubeSecret
replace entries labels live = record live {
  entries = entries;
  labels = merge_map labels live.labels;
}

-- upsertSecret under a key, given the calls and the Secret that is there; true is nil.
abbrev pub put_secret :
    KubeCall
    → Text
    → List (Text × Text)
    → List (Text × Text)
    → Option KubeSecret
    → Kube
    → Kube × Bool
put_secret c k entries labels none w =
    if c.create_ok
    then (
      record w { secrets = insert k (record { labels = labels; entries = entries }) w.secrets },
      true,
    )
    else (w, false)
put_secret c k entries labels (some live) w =
    if c.create_ok && (c.get_ok && c.update_ok)
    then (record w { secrets = insert k (replace entries labels live) w.secrets }, true)
    else (w, false)

-- upsertSecret
unfoldable pub upsert_secret :
    KubeCall → Text → Text → List (Text × Text) → List (Text × Text) → Kube → Kube × Bool
unfolding merge_map
upsert_secret c ns name entries labels w =
    put_secret c (object_key ns name) entries labels (lookup (object_key ns name) w.secrets) w

abbrev pub run_secret : Text → Text
run_secret run_id = txt "run-" ++ run_id

abbrev pub agent_secret : Text → Text
agent_secret agent_name = txt "agent-" ++ (agent_name ++ txt "-secrets")

-- ProjectForRun and ProjectForAgent; the name that they return besides is run_secret, agent_secret.
unfoldable pub project_for_run : KubeCall → Text → Text → List (Text × Text) → Kube → Kube × Bool
unfolding upsert_secret
project_for_run c tenant_id run_id entries =
    upsert_secret c (tenant_namespace tenant_id) (run_secret run_id) entries
      ((tenant_label, tenant_id) ∷ (run_label, run_id) ∷ [])

unfoldable pub project_for_agent : KubeCall → Text → Text → List (Text × Text) → Kube → Kube × Bool
unfolding upsert_secret
project_for_agent c tenant_id agent_name entries =
    upsert_secret c (tenant_namespace tenant_id) (agent_secret agent_name) entries
      ((tenant_label, tenant_id) ∷ (agent_label, agent_name) ∷ [])

-- For what the Secret is made: the cases of projectSecrets of internal/runs/handlers.go.
pub data Holder : Type 0 where
  for_run for_agent : Text → Holder

abbrev pub project_for : KubeCall → Text → Holder → List (Text × Text) → Kube → Kube × Bool
project_for c tenant_id (for_run id) entries = project_for_run c tenant_id id entries
project_for c tenant_id (for_agent id) entries = project_for_agent c tenant_id id entries

abbrev pub secret_name : Holder → Text
secret_name (for_run id) = run_secret id
secret_name (for_agent id) = agent_secret id

abbrev pub named_if : Holder → Kube × Bool → Kube × Option Text
named_if h (w, true) = (w, some (secret_name h))
named_if h (w, false) = (w, none)

-- projectSecrets once the namespace is there, or not
abbrev pub project_into :
    KubeCall → Text → Holder → List (Text × Text) → Kube × Bool → Kube × Option Text
project_into c tenant_id h entries (w, false) = (w, none)
project_into c tenant_id h entries (w, true) = named_if h (project_for c tenant_id h entries w)

abbrev pub project_resolved :
    KubeCall → Text → Holder → Option (List (Text × Text)) → Kube → Kube × Option Text
project_resolved c tenant_id h none w = (w, none)
project_resolved c tenant_id h (some entries) w =
    project_into c tenant_id h entries (ensure_tenant_namespace c.namespace_ok tenant_id w)

-- projectSecrets of internal/runs/handlers.go and internal/agents/deploy_handlers.go with a cluster
-- and a secret store, given what Resolve makes of a list of names: the name of the Secret, the
-- empty text where there is nothing to project, or none for an error.
unfoldable pub project_secrets :
    (List Text → Option (List (Text × Text)))
    → KubeCall
    → Text
    → Holder
    → List Text
    → Kube
    → Kube × Option Text
unfolding project_for_run project_for_agent
project_secrets resolved c tenant_id h [] w = (w, some [])
project_secrets resolved c tenant_id h (n ∷ ns) w =
    project_resolved c tenant_id h (resolved (n ∷ ns)) w
