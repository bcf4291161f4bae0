-- ===== src/Runs/Serving/Pods.antt =====
-- What a pass of the AgentDeployment controller leaves in the cluster.
use ai_lab.Prelude.{
  ◌≡◌, refl, ◌∙◌, false, some, List, [], ◌∷◌, Text, same, same_refl, lookup, insert, lookup-insert,
  Bool, true, Option, none, if◌then◌else◌, txt, is_empty, ap, coalesce, lookup-insert_self, ℕ, zero,
  suc, ◌+◌, ◌*◌, ◌/◌, ◌%◌, ◌<◌, inl, inr, arith, ltb, Bool-cases,
}
use ai_lab.Runs.Resources.{AgentDeployment, tenant_label, agent_label, deployment_label}
use ai_lab.Runs.Serving.{
  PodContainer, Deployment, Service, Pass, agent_labels, merge_map, set_containers,
  mutate_deployment, mutate_service, Objects, port_or_default, apply_deployment, apply_service,
  set_status, reconcile_found, reconcile_got, reconcile, no_deployment, no_service, new_container,
  set_container, key_of, url_of, digits,
}

-- Each label of a selector stands on the pods.
abbrev pub Selects : List (Text × Text) → List (Text × Text) → Type 0
Selects [] labels = Unit
Selects ((k, v) ∷ selector) labels = (lookup k labels ≡ some v) × Selects selector labels

labels_differ :
    (same tenant_label agent_label ≡ false)
    × (same tenant_label deployment_label ≡ false)
    × (same agent_label deployment_label ≡ false)
unfolding same
labels_differ = (refl, refl, refl)

pub Selects-merge_map :
    (ad : AgentDeployment) (m : List (Text × Text))
    → Selects (agent_labels ad) (merge_map (agent_labels ad) m)
unfolding merge_map
Selects-merge_map ad m =
    let d = labels_differ in
    let m1 = insert deployment_label ad.name m in
    let m2 = insert agent_label ad.spec.agent_name m1 in
    (
      lookup-insert tenant_label tenant_label ad.spec.tenant_id m2
          ∙ rw (same_refl tenant_label) refl,
      (
        lookup-insert tenant_label agent_label ad.spec.tenant_id m2
            ∙ rw d.0 (
                lookup-insert agent_label agent_label ad.spec.agent_name m1
                ∙ rw (same_refl agent_label) refl),
        (
          lookup-insert tenant_label deployment_label ad.spec.tenant_id m2
              ∙ rw d.1 (
                  lookup-insert agent_label deployment_label ad.spec.agent_name m1
                  ∙ rw d.2 (
                      lookup-insert deployment_label deployment_label ad.name m
                      ∙ rw (same_refl deployment_label) refl)),
          tt,
        ),
      ),
    )

abbrev pub all_done : Pass → AgentDeployment → Objects → Objects
all_done x ad w = set_status x ad (apply_service ad (apply_deployment x ad w))

-- A pass that reports success has found no resource, or has made all of its writes.
pub reconcile_done :
    (x : Pass) (key : Text) (w : Objects) (ad : AgentDeployment)
    → lookup key w.resources ≡ some ad
    → (reconcile x key w).1 ≡ true
    → (reconcile x key w).0 ≡ all_done x ad w
unfolding reconcile
reconcile_done x key w ad found h = got x.get_ok (lookup key w.resources) found h
  where
    wrote :
        (a : AgentDeployment) (p q r : Bool)
        → (reconcile_found x a p q r w).1 ≡ true
        → (reconcile_found x a p q r w).0 ≡ all_done x a w
    wrote a false q r e = absurd cc
    wrote a true false r e = absurd cc
    wrote a true true false e = absurd cc
    wrote a true true true e = refl

    got :
        (ok : Bool) (o : Option AgentDeployment)
        → o ≡ some ad
        → (reconcile_got x ok o w).1 ≡ true
        → (reconcile_got x ok o w).0 ≡ all_done x ad w
    got false o e k = absurd cc
    got true none e k = absurd cc
    got true (some a) e k =
        let q : a ≡ ad = cc in
        wrote a x.deployment_ok x.service_ok x.status_ok k ∙ ap (λ b. all_done x b w) q

-- What serves an AgentDeployment: pods with its image that listen on a port, and a Service on that
-- port that selects just what the Deployment selects, which its pods have.
pub record Serves (ad : AgentDeployment) (d : Deployment) (s : Service) : Type 0 where
  pub one_replica : d.replicas ≡ some 1
  pub same_selector : d.selector ≡ some s.selector
  pub selected : Selects s.selector d.template_labels
  pub container :
      (c : PodContainer) × (rest : List PodContainer) × (d.containers ≡ c ∷ rest)
      × (c.image ≡ ad.spec.image)
      × (c.ports ≡ (txt "http", port_or_default ad.spec.port) ∷ [])
      × (c.env_from ≡ (if is_empty ad.spec.secret_ref then [] else ad.spec.secret_ref ∷ []))
  pub ports :
      s.ports ≡ (txt "http", (port_or_default ad.spec.port, port_or_default ad.spec.port)) ∷ []

abbrev pub selector_of : Option Deployment → Option (List (Text × Text))
selector_of none = none
selector_of (some d) = d.selector

-- A Deployment that is there already selects what the controller would.
abbrev pub IsOurs : Text → Option (List (Text × Text)) → Type 0
IsOurs name none = Unit
IsOurs name (some selector) = selector ≡ (deployment_label, name) ∷ []

same_selector_of :
    (ad : AgentDeployment) (o : Option (List (Text × Text)))
    → IsOurs ad.name o
    → coalesce o ((deployment_label, ad.name) ∷ []) ≡ (deployment_label, ad.name) ∷ []
same_selector_of ad none h = refl
same_selector_of ad (some selector) h = h

container_set :
    (x : Pass) (ad : AgentDeployment) (cs : List PodContainer)
    → (c : PodContainer) × (rest : List PodContainer) × (set_containers x ad cs ≡ c ∷ rest)
      × (c.image ≡ ad.spec.image)
      × (c.ports ≡ (txt "http", port_or_default ad.spec.port) ∷ [])
      × (c.env_from ≡ (if is_empty ad.spec.secret_ref then [] else ad.spec.secret_ref ∷ []))
container_set x ad [] = (set_container x ad new_container, [], refl, refl, refl, refl)
container_set x ad (c ∷ cs) = (set_container x ad c, cs, refl, refl, refl, refl)

mutate-Serves :
    (x : Pass) (ad : AgentDeployment) (d : Deployment) (s : Service)
    → IsOurs ad.name d.selector
    → Serves ad (mutate_deployment x ad d) (mutate_service ad s)
unfolding mutate_deployment mutate_service
mutate-Serves x ad d s ours = record {
  one_replica = refl;
  same_selector = ap some (same_selector_of ad d.selector ours);
  selected = ((Selects-merge_map ad d.template_labels).1.1.0, tt);
  container = container_set x ad d.containers;
  ports = refl;
}

-- What a pass on a key leaves for a resource.
abbrev pub IsServed : Pass → Objects → AgentDeployment → Text → Type 0
IsServed x w ad key =
    let w' = (reconcile x key w).0 in
    (d : Deployment) × (s : Service) × (ad' : AgentDeployment) × (lookup key w'.deployments
      ≡ some d)
    × (lookup key w'.services ≡ some s)
    × Serves ad d s
    × (lookup key w'.resources ≡ some ad')
    × (ad'.spec ≡ ad.spec)
    × (ad'.status.url ≡ url_of ad)

-- A pass that reports success on a resource under its own key leaves a Deployment and a Service
-- that serve it as its spec says, and a status with the Service's URL, if a Deployment that was
-- there before selects by the resource's name.
pub reconcile-IsServed :
    (x : Pass) (w : Objects) (ad : AgentDeployment)
    → lookup (key_of ad) w.resources ≡ some ad
    → IsOurs ad.name (selector_of (lookup (key_of ad) w.deployments))
    → (reconcile x (key_of ad) w).1 ≡ true
    → IsServed x w ad (key_of ad)
reconcile-IsServed x w ad found ours h =
    let k = key_of ad in
    let d = coalesce (lookup k w.deployments) no_deployment in
    let s = coalesce (lookup k w.services) no_service in
    rw (reconcile_done x k w ad found h) (
      mutate_deployment x ad d,
      mutate_service ad s,
      _,
      lookup-insert_self k (mutate_deployment x ad d) w.deployments,
      lookup-insert_self k (mutate_service ad s) w.services,
      mutate-Serves x ad d s (ours_of (lookup k w.deployments) ours),
      lookup-insert_self k _ w.resources,
      refl,
      refl,
    )
  where
    ours_of :
        (o : Option Deployment)
        → IsOurs ad.name (selector_of o)
        → IsOurs ad.name (coalesce o no_deployment).selector
    ours_of none g = tt
    ours_of (some d) g = g

abbrev power_of_ten : ℕ → ℕ
power_of_ten zero = 1
power_of_ten (suc k) = 10 * power_of_ten k

-- The fuel of the digits is enough where it is at least their number: more of it changes nothing.
digits_enough :
    (k n : ℕ) (acc : Text)
    → n < power_of_ten (suc k)
    → digits (suc (suc k)) n acc ≡ digits (suc k) n acc
digits_enough zero n acc h = let small : ltb n 10 ≡ true = ground arith in rw small refl
digits_enough (suc k) n acc h = elim (Bool-cases (ltb n 10)) [
  | inl e ↦ rw e refl
  | inr e ↦ rw e (digits_enough k (n / 10) ((n % 10 + b'0') ∷ acc) (omega arith))
]

-- So ten are enough for every port, which is below 2 ^ 31.
digits_of_port : (n : ℕ) (acc : Text) → n < 2147483648 → digits 11 n acc ≡ digits 10 n acc
digits_of_port n acc h = digits_enough 9 n acc (omega arith)
