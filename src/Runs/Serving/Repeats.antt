-- ===== src/Runs/Serving/Repeats.antt =====
-- A second pass of the AgentDeployment controller changes no Deployment and no Service.
use ai_lab.Prelude.{
  ◌≡◌, refl, ap, ◌∙◌, Bool, true, false, some, List, [], ◌∷◌, if◌then◌else◌, coalesce, Text, txt,
  is_empty, lookup, insert, insert-insert, insert_present, lookup-insert_self,
}
use ai_lab.Runs.Resources.{AgentDeploymentStatus, AgentDeployment}
use ai_lab.Runs.Serving.{
  PodContainer, Deployment, Service, no_deployment, no_service, Objects, Pass, agent_labels,
  merge_map, new_container, set_container, set_containers, mutate_deployment, mutate_service,
  key_of, reconcile_found, reconcile_got, reconcile, apply_deployment, apply_service, new_status,
}
use ai_lab.Runs.Serving.Pods.{Selects, Selects-merge_map, all_done, reconcile_done}

merge_map_absorbed : (kvs m : List (Text × Text)) → Selects kvs m → merge_map kvs m ≡ m
unfolding merge_map
merge_map_absorbed [] m h = refl
merge_map_absorbed ((k, v) ∷ kvs) m h = rw (merge_map_absorbed kvs m h.1) (insert_present k v m h.0)

merge_map-merge_map :
    (ad : AgentDeployment) (m : List (Text × Text))
    → merge_map (agent_labels ad) (merge_map (agent_labels ad) m) ≡ merge_map (agent_labels ad) m
merge_map-merge_map ad m =
    merge_map_absorbed (agent_labels ad) (merge_map (agent_labels ad) m) (Selects-merge_map ad m)

set_containers-set_containers :
    (x : Pass) (ad : AgentDeployment) (cs : List PodContainer)
    → set_containers x ad (set_containers x ad cs) ≡ set_containers x ad cs
set_containers-set_containers x ad [] = refl
set_containers-set_containers x ad (c ∷ cs) = refl

mutate_deployment-mutate_deployment :
    (x : Pass) (ad : AgentDeployment) (d : Deployment)
    → mutate_deployment x ad (mutate_deployment x ad d) ≡ mutate_deployment x ad d
unfolding mutate_deployment
mutate_deployment-mutate_deployment x ad d =
    rw
      (
        merge_map-merge_map ad d.labels,
        merge_map-merge_map ad d.template_labels,
        set_containers-set_containers x ad d.containers,
      )
      refl

kind_once :
    (k : Text)
    → (if is_empty (if is_empty k then txt "ClusterIP" else k)
        then txt "ClusterIP"
        else (if is_empty k then txt "ClusterIP" else k))
      ≡ (if is_empty k then txt "ClusterIP" else k)
kind_once [] = refl
kind_once (c ∷ k) = refl

mutate_service-mutate_service :
    (ad : AgentDeployment) (s : Service)
    → mutate_service ad (mutate_service ad s) ≡ mutate_service ad s
unfolding mutate_service
mutate_service-mutate_service ad s = rw (merge_map-merge_map ad s.labels, kind_once s.kind) refl

same_containers :
    (x y : Pass) (ad : AgentDeployment) (cs : List PodContainer)
    → y.ranged ad.spec.env ≡ x.ranged ad.spec.env
    → set_containers y ad cs ≡ set_containers x ad cs
same_containers x y ad [] e = ap (λ v. record (set_container x ad new_container) { env = v } ∷ []) e
same_containers x y ad (c ∷ cs) e = ap (λ v. record (set_container x ad c) { env = v } ∷ cs) e

mutated_again :
    (x y : Pass) (ad : AgentDeployment) (status : AgentDeploymentStatus) (d : Deployment)
    → y.ranged ad.spec.env ≡ x.ranged ad.spec.env
    → mutate_deployment y (record ad { status = status }) (mutate_deployment x ad d)
      ≡ mutate_deployment x ad d
unfolding mutate_deployment
mutated_again x y ad status d e =
    ap (λ cs. record (mutate_deployment x ad (mutate_deployment x ad d)) { containers = cs })
      (same_containers x y ad (set_containers x ad d.containers) e)
    ∙ mutate_deployment-mutate_deployment x ad d

module _ (x y : Pass) (ad : AgentDeployment) (status : AgentDeploymentStatus) where
  deployment_again :
      (d : Deployment) (m : List (Text × Deployment))
      → y.ranged ad.spec.env ≡ x.ranged ad.spec.env
      → let m' = insert (key_of ad) (mutate_deployment x ad d) m in
        insert
          (key_of ad)
          (mutate_deployment y
            (record ad { status = status })
            (coalesce (lookup (key_of ad) m') no_deployment))
          m'
        ≡ m'
  deployment_again d m e =
      let k = key_of ad in
      rw (lookup-insert_self k (mutate_deployment x ad d) m) (
        ap (λ z. insert k z (insert k (mutate_deployment x ad d) m))
          (mutated_again x y ad status d e)
        ∙ insert-insert k (mutate_deployment x ad d) (mutate_deployment x ad d) m)

  service_again :
      (s : Service) (m : List (Text × Service))
      → let m' = insert (key_of ad) (mutate_service ad s) m in
        insert
          (key_of ad)
          (mutate_service
            (record ad { status = status })
            (coalesce (lookup (key_of ad) m') no_service))
          m'
        ≡ m'
  unfolding mutate_service
  service_again s m =
      let k = key_of ad in
      rw (lookup-insert_self k (mutate_service ad s) m) (
        ap (λ z. insert k z (insert k (mutate_service ad s) m)) (mutate_service-mutate_service ad s)
        ∙ insert-insert k (mutate_service ad s) (mutate_service ad s) m)

  found_again :
      (p q r : Bool) (w : Objects)
      → y.ranged ad.spec.env ≡ x.ranged ad.spec.env
      → let w1 = all_done x ad w in
        let w2 = (reconcile_found y (record ad { status = status }) p q r w1).0 in
        (w2.deployments ≡ w1.deployments) × (w2.services ≡ w1.services)
  found_again false q r w e = (refl, refl)
  found_again true false r w e = (deployment_again _ w.deployments e, refl)
  found_again true true false w e = (deployment_again _ w.deployments e, service_again _ w.services)
  found_again true true true w e = (deployment_again _ w.deployments e, service_again _ w.services)

-- After a pass that reports success, another pass on the resource, however its calls go, changes no
-- Deployment and no Service, provided that the range over the map of variables gives them in the
-- same order.
pub reconcile-reconcile :
    (x y : Pass) (w : Objects) (ad : AgentDeployment)
    → lookup (key_of ad) w.resources ≡ some ad
    → (reconcile x (key_of ad) w).1 ≡ true
    → y.ranged ad.spec.env ≡ x.ranged ad.spec.env
    → let w1 = (reconcile x (key_of ad) w).0 in
      let w2 = (reconcile y (key_of ad) w1).0 in
      (w2.deployments ≡ w1.deployments) × (w2.services ≡ w1.services)
unfolding reconcile
reconcile-reconcile x y w ad found h e =
    rw (reconcile_done x (key_of ad) w ad found h) (got y.get_ok)
  where
    got :
        (ok : Bool)
        → let w1 = all_done x ad w in
          let w2 = (reconcile_got y ok (lookup (key_of ad) w1.resources) w1).0 in
          (w2.deployments ≡ w1.deployments) × (w2.services ≡ w1.services)
    got false = (refl, refl)
    got true =
        let status = new_status x ad (apply_service ad (apply_deployment x ad w)) in
        rw (lookup-insert_self (key_of ad) (record ad { status = status }) w.resources)
          (found_again x y ad status y.deployment_ok y.service_ok y.status_ok w e)
