-- ===== src/Runs/Serving.antt =====
-- The AgentDeployment controller (internal/runs/deployment_controller.go): one pass of Reconcile
-- keeps a Deployment and a Service under the resource's namespace and name. A field that the API
-- server fills in by itself is `defaults`. Whether each call is served is a field of the pass.
pub mod Pods
pub mod Repeats
pub mod Routes
use ai_lab.Prelude.{
  ℕ, zero, suc, ◌+◌, ◌/◌, ◌%◌, Bool, true, false, Option, none, some, List, [], ◌∷◌, ◌++◌, ltb,
  ◌==◌, if◌then◌else◌, coalesce, Text, txt, is_empty, lookup, insert,
}
use ai_lab.Runs.Resources.{AgentDeployment, AgentDeploymentStatus, tenant_label, agent_label}
use ai_lab.Runs.Dispatch.{object_key}

-- corev1.Probe with an HTTPGet, the part that readinessProbe does not fix.
pub record Probe : Type 0 where
  pub path : Text
  pub port : ℕ

-- The container of a pod template: a port with its name, the variables, the projected Secrets.
pub record PodContainer : Type 0 where
  pub name : Text
  pub image : Text
  pub ports : List (Text × ℕ)
  pub env : List (Text × Text)
  pub env_from : List Text
  pub readiness : Option Probe
  pub defaults : Text

-- appsv1.Deployment; the selector is its MatchLabels.
pub record Deployment : Type 0 where
  pub labels : List (Text × Text)
  pub replicas : Option ℕ
  pub selector : Option (List (Text × Text))
  pub template_labels : List (Text × Text)
  pub containers : List PodContainer
  pub controller : Option Text
  pub ready_replicas : ℕ
  pub defaults : Text

-- corev1.Service; a port has its name, its number and the target's.
pub record Service : Type 0 where
  pub labels : List (Text × Text)
  pub selector : List (Text × Text)
  pub ports : List (Text × (ℕ × ℕ))
  pub kind : Text
  pub controller : Option Text
  pub defaults : Text

-- An object that does not exist yet.
abbrev pub no_deployment : Deployment
no_deployment = record {
  labels = [];
  replicas = none;
  selector = none;
  template_labels = [];
  containers = [];
  controller = none;
  ready_replicas = 0;
  defaults = [];
}

abbrev pub no_service : Service
no_service = record {
  labels = [];
  selector = [];
  ports = [];
  kind = [];
  controller = none;
  defaults = [];
}

-- The objects, by namespace and name.
pub record Objects : Type 0 where
  pub resources : List (Text × AgentDeployment)
  pub deployments : List (Text × Deployment)
  pub services : List (Text × Service)

-- How the calls of one pass go: whether the Get, the read and write of CreateOrUpdate with
-- SetControllerReference in between, the second Get and the status update are served; and the order
-- in which the range over the map of variables gives them.
pub record Pass : Type 0 where
  pub get_ok : Bool
  pub deployment_ok : Bool
  pub service_ok : Bool
  pub live_ok : Bool
  pub status_ok : Bool
  pub ranged : List (Text × Text) → List (Text × Text)

-- portOrDefault
abbrev pub port_or_default : ℕ → ℕ
port_or_default p = if p == 0 then 8080 else p

abbrev pub deployment_label : Text
deployment_label = txt "ailab.uipath.com/deployment"

-- agentLabels
abbrev pub agent_labels : AgentDeployment → List (Text × Text)
agent_labels ad =
    (tenant_label, ad.spec.tenant_id)
    ∷ (agent_label, ad.spec.agent_name)
    ∷ (deployment_label, ad.name)
    ∷ []

-- mergeLabels and mergeMap; a nil map is empty.
unfoldable pub merge_map : List (Text × Text) → List (Text × Text) → List (Text × Text)
merge_map [] m = m
merge_map ((k, v) ∷ kvs) m = insert k v (merge_map kvs m)

-- readinessProbe
abbrev pub readiness_probe : Text → ℕ → Option Probe
readiness_probe path port =
    if is_empty path then none else some (record { path = path; port = port })

abbrev pub new_container : PodContainer
new_container = record {
  name = txt "agent";
  image = [];
  ports = [];
  env = [];
  env_from = [];
  readiness = none;
  defaults = [];
}

-- What applyDeployment sets in the first container.
abbrev pub set_container : Pass → AgentDeployment → PodContainer → PodContainer
set_container x ad c = record c {
  name = txt "agent";
  image = ad.spec.image;
  ports = (txt "http", port_or_default ad.spec.port) ∷ [];
  env = x.ranged ad.spec.env;
  env_from = if is_empty ad.spec.secret_ref then [] else ad.spec.secret_ref ∷ [];
  readiness = readiness_probe ad.spec.health_path (port_or_default ad.spec.port);
}

abbrev pub set_containers : Pass → AgentDeployment → List PodContainer → List PodContainer
set_containers x ad [] = set_container x ad new_container ∷ []
set_containers x ad (c ∷ cs) = set_container x ad c ∷ cs

-- The function that applyDeployment gives to CreateOrUpdate.
unfoldable pub mutate_deployment : Pass → AgentDeployment → Deployment → Deployment
unfolding merge_map
mutate_deployment x ad d = record d {
  labels = merge_map (agent_labels ad) d.labels;
  replicas = some 1;
  selector = some (coalesce d.selector ((deployment_label, ad.name) ∷ []));
  template_labels = merge_map (agent_labels ad) d.template_labels;
  containers = set_containers x ad d.containers;
  controller = some ad.name;
}

-- The function that applyService gives to CreateOrUpdate.
unfoldable pub mutate_service : AgentDeployment → Service → Service
unfolding merge_map
mutate_service ad s = record s {
  labels = merge_map (agent_labels ad) s.labels;
  selector = (deployment_label, ad.name) ∷ [];
  ports = (txt "http", (port_or_default ad.spec.port, port_or_default ad.spec.port)) ∷ [];
  kind = if is_empty s.kind then txt "ClusterIP" else s.kind;
  controller = some ad.name;
}

abbrev pub key_of : AgentDeployment → Text
key_of ad = object_key ad.namespace ad.name

-- applyDeployment and applyService. An Update that would change nothing is left out by
-- CreateOrUpdate, to the same effect.
abbrev pub apply_deployment : Pass → AgentDeployment → Objects → Objects
apply_deployment x ad w = record w {
  deployments =
      insert (key_of ad)
        (mutate_deployment x ad (coalesce (lookup (key_of ad) w.deployments) no_deployment))
        w.deployments;
}

abbrev pub apply_service : AgentDeployment → Objects → Objects
apply_service ad w = record w {
  services =
      insert (key_of ad) (mutate_service ad (coalesce (lookup (key_of ad) w.services) no_service))
        w.services;
}

-- The decimal digits of an int32
abbrev pub digits : ℕ → ℕ → Text → Text
digits zero n acc = acc
digits (suc fuel) n acc =
    let rest = digits fuel (n / 10) ((n % 10 + b'0') ∷ acc) in
    if ltb n 10 then (n + b'0') ∷ acc else rest

abbrev pub url_of : AgentDeployment → Text
url_of ad =
    txt "http://"
    ++ (ad.name
        ++ b'.'
          ∷ (ad.namespace
              ++ (txt ".svc.cluster.local:" ++ digits 10 (port_or_default ad.spec.port) [])))

abbrev pub ready_of : Bool → Option Deployment → ℕ → ℕ
ready_of true (some d) n = d.ready_replicas
ready_of true none n = n
ready_of false live n = n

abbrev pub new_status : Pass → AgentDeployment → Objects → AgentDeploymentStatus
new_status x ad w = record ad.status {
  url = url_of ad;
  ready_replicas = ready_of x.live_ok (lookup (key_of ad) w.deployments) ad.status.ready_replicas;
}

-- The status update
abbrev pub set_status : Pass → AgentDeployment → Objects → Objects
set_status x ad w = record w {
  resources = insert (key_of ad) (record ad { status = new_status x ad w }) w.resources;
}

-- Reconcile of a resource that is there, given how the three writes go; true is nil.
abbrev pub reconcile_found : Pass → AgentDeployment → Bool → Bool → Bool → Objects → Objects × Bool
reconcile_found x ad false service_ok status_ok w = (w, false)
reconcile_found x ad true false status_ok w = (apply_deployment x ad w, false)
reconcile_found x ad true true false w = (apply_service ad (apply_deployment x ad w), false)
reconcile_found x ad true true true w =
    (set_status x ad (apply_service ad (apply_deployment x ad w)), true)

abbrev pub reconcile_got : Pass → Bool → Option AgentDeployment → Objects → Objects × Bool
reconcile_got x false found w = (w, false)
reconcile_got x true none w = (w, true)
reconcile_got x true (some ad) w = reconcile_found x ad x.deployment_ok x.service_ok x.status_ok w

-- AgentDeploymentReconciler.Reconcile, on the key of a request
unfoldable pub reconcile : Pass → Text → Objects → Objects × Bool
unfolding mutate_deployment mutate_service
reconcile x key w = reconcile_got x x.get_ok (lookup key w.resources) w
