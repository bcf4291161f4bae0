-- ===== src/Runs/Serving/Routes.antt =====
-- From a deployment event to the answer of the gateway: the consumer's AgentDeployment
-- (internal/runs/deployment_consumer.go), the controller's Service (deployment_controller.go) and
-- the address that the gateway resolves (cmd/gateway/main.go).
use ai_lab.Prelude.{
  Text, ℕ, ◌≡◌, refl, Bool, true, false, Option, none, some, List, [], ◌∷◌, ◌++◌, arith, txt,
  lookup, lookup-insert_self, subst, ap₂, sym, ap, ◌∙◌,
}
use ai_lab.Events.{DeploymentRequested}
use ai_lab.Gateway.{
  new_cache, get, Deployments, resolved_for, resolve, Target, in_cluster, api_proxy, target_url,
  proxied, strip_port, serve_http,
}
use ai_lab.Gateway.Hosts.{NoDot}
use ai_lab.Gateway.Routing.{serve_http_resolved}
use ai_lab.Runs.Resources.{AgentDeployment, tenant_namespace}
use ai_lab.Runs.Dispatch.{
  deployment_spec, Cluster, object_key, DispatchCall, Config, deployment_resource, handle_requested,
}
use ai_lab.Runs.Dispatch.Redelivery.{deployment_key}
use ai_lab.Runs.Serving.{Pass, Deployment, Service, Objects, reconcile, port_or_default, key_of}
use ai_lab.Runs.Serving.Pods.{Serves, selector_of, IsOurs, IsServed, reconcile-IsServed}

-- A resource that is stored under the event's key has its name and namespace.
abbrev pub Named : DeploymentRequested → Option AgentDeployment → Type 0
Named ev none = Unit
Named ev (some ad) = (ad.name ≡ ev.agent_name) × (ad.namespace ≡ tenant_namespace ev.tenant_id)

abbrev pub For : DeploymentRequested → AgentDeployment → Type 0
For ev ad =
    (ad.spec ≡ deployment_spec ev)
    × (ad.name ≡ ev.agent_name)
    × (ad.namespace ≡ tenant_namespace ev.tenant_id)

-- An acked deployment.requested leaves a resource with the event's spec, name and namespace, if the
-- client's cache shows what is there.
requested_lem :
    (cfg : Config) (c : DispatchCall) (ev : DeploymentRequested) (w : Cluster)
    → Named ev (lookup (deployment_key ev) w.deployments)
    → c.is_cached ≡ true
    → (handle_requested cfg c (some ev) w).1 ≡ true
    → (ad : AgentDeployment) × (lookup
          (deployment_key ev)
          (handle_requested cfg c (some ev) w).0.deployments
        ≡ some ad)
      × For ev ad
unfolding handle_requested
requested_lem cfg c ev w named fresh h = go (lookup (deployment_key ev) w.deployments) refl named
  where
    go :
        (o : Option AgentDeployment)
        → lookup (deployment_key ev) w.deployments ≡ o
        → Named ev o
        → (ad : AgentDeployment) × (lookup
              (deployment_key ev)
              (handle_requested cfg c (some ev) w).0.deployments
            ≡ some ad)
          × For ev ad
    go none e n = (
      deployment_resource ev,
      ground (arith, lookup-insert_self (deployment_key ev) (deployment_resource ev) w.deployments),
      (refl, refl, refl),
    )
    go (some old) e n = (
      record old { spec = deployment_spec ev },
      ground (
        arith,
        lookup-insert_self (deployment_key ev) (record old { spec = deployment_spec ev })
            w.deployments,
      ),
      (refl, n.0, n.1),
    )

-- The API server as the gateway asks it.
abbrev pub ports_of : List (Text × AgentDeployment) → Deployments
ports_of resources ns name = elim (lookup (object_key ns name) resources) [
  | none ↦ none
  | some ad ↦ some ad.spec.port
]

-- The host that the cluster's DNS gives a Service.
abbrev pub service_host : DeploymentRequested → Text
service_host ev =
    ev.agent_name ++ b'.' ∷ (tenant_namespace ev.tenant_id ++ txt ".svc.cluster.local")

resolved_cold :
    (k : Deployments) (now ttl : ℕ) (agent tenant : Text) (port : ℕ)
    → k (tenant_namespace tenant) agent ≡ some port
    → (resolve k now agent tenant (new_cache ttl)).1 ≡ some (resolved_for agent tenant port)
unfolding resolve get new_cache lookup
resolved_cold k now ttl agent tenant port e = rw e refl

routed :
    (resources : List (Text × AgentDeployment)) (ev : DeploymentRequested) (ad : AgentDeployment)
    (ttl now : ℕ)
    → lookup (deployment_key ev) resources ≡ some ad
    → ad.spec ≡ deployment_spec ev
    → (resolve (ports_of resources) now ev.agent_name ev.tenant_id (new_cache ttl)).1
      ≡ some (resolved_for ev.agent_name ev.tenant_id ev.port)
routed resources ev ad ttl now found spec =
    resolved_cold (ports_of resources) now ttl ev.agent_name ev.tenant_id ev.port
      (rw (found, ports_of) (ap (λ z. some z.port) spec))

own_key :
    (ev : DeploymentRequested) (ad : AgentDeployment)
    → ad.name ≡ ev.agent_name
    → ad.namespace ≡ tenant_namespace ev.tenant_id
    → key_of ad ≡ deployment_key ev
own_key ev ad p q = ap₂ (λ ns n. object_key ns n) q p

-- A pass on the resource of an event, under the event's key.
event-IsServed :
    (x : Pass) (w : Objects) (ev : DeploymentRequested) (ad : AgentDeployment)
    → For ev ad
    → lookup (deployment_key ev) w.resources ≡ some ad
    → IsOurs ev.agent_name (selector_of (lookup (deployment_key ev) w.deployments))
    → (reconcile x (deployment_key ev) w).1 ≡ true
    → IsServed x w ad (deployment_key ev)
event-IsServed x w ev ad for found ours done =
    subst
      (λ k.
        lookup k w.resources ≡ some ad
        → IsOurs ad.name (selector_of (lookup k w.deployments))
        → (reconcile x k w).1 ≡ true
        → IsServed x w ad k)
      (own_key ev ad for.1 for.2) (reconcile-IsServed x w ad) found
      (subst (λ n. IsOurs n (selector_of (lookup (deployment_key ev) w.deployments))) (sym for.1)
        ours)
      done

-- Where a gateway goes for the agent of an event at a port: to the Service's name in the cluster, or to
-- the parts of the API server's proxy path.
abbrev pub address : Bool → DeploymentRequested → ℕ → Target
address false ev port = in_cluster (service_host ev) port
address true ev port = api_proxy (tenant_namespace ev.tenant_id) ev.agent_name port

addressed :
    (ev : DeploymentRequested) (proxy : Bool)
    → target_url proxy (resolved_for ev.agent_name ev.tenant_id ev.port)
      ≡ address proxy ev (port_or_default ev.port)
unfolding target_url
addressed ev true = refl
addressed ev false = refl

-- A Deployment and a Service that serve a resource of the event's spec, at the port to which a
-- gateway with a cold cache proxies a request to the host.
abbrev pub IsRouted : DeploymentRequested → Text → Text → ℕ → ℕ → Objects → Type 0
IsRouted ev domain host ttl now served =
    (ad : AgentDeployment) × (d : Deployment) × (s : Service) × (port : ℕ) × (ad.spec
      ≡ deployment_spec ev)
    × (lookup (deployment_key ev) served.deployments ≡ some d)
    × (lookup (deployment_key ev) served.services ≡ some s)
    × Serves ad d s
    × (s.ports ≡ (txt "http", (port, port)) ∷ [])
    × ((proxy : Bool)
        → (serve_http domain proxy (ports_of served.resources) now host (new_cache ttl)).1
          ≡ proxied (address proxy ev port))

-- An acked deployment.requested, whose Get was answered from an up-to-date cache, followed by a pass
-- of the controller that reports success, leaves a Deployment and a Service that serve a resource of
-- the event's spec, with its image; and a gateway with a cold cache, in the cluster or behind the API
-- server's proxy, sends a request to the agent's host, which is <agent>.<tenant>.<domain>, with a
-- port or without, to that Service, at the very port that it has. What stood under the event's key
-- before has the event's name, and selects by it; the agent's name holds no dot.
pub deployed-IsRouted :
    (cfg : Config) (c : DispatchCall) (ev : DeploymentRequested) (w : Cluster) (x : Pass)
    (objects : Objects) (domain host : Text) (ttl now : ℕ)
    → Named ev (lookup (deployment_key ev) w.deployments)
    → c.is_cached ≡ true
    → (handle_requested cfg c (some ev) w).1 ≡ true
    → objects.resources ≡ (handle_requested cfg c (some ev) w).0.deployments
    → IsOurs ev.agent_name (selector_of (lookup (deployment_key ev) objects.deployments))
    → (reconcile x (deployment_key ev) objects).1 ≡ true
    → strip_port host ≡ ev.agent_name ++ b'.' ∷ (ev.tenant_id ++ b'.' ∷ domain)
    → NoDot ev.agent_name
    → IsRouted ev domain host ttl now (reconcile x (deployment_key ev) objects).0
deployed-IsRouted cfg c ev w x objects domain host ttl now named fresh h same_resources ours done
      at_host nd =
    let (ad, found, for) = requested_lem cfg c ev w named fresh h in
    let there : lookup (deployment_key ev) objects.resources ≡ some ad =
      ap (λ m. lookup (deployment_key ev) m) same_resources ∙ found in
    let (d, s, ad', at_d, at_s, serves, at_ad, spec, url) =
      event-IsServed x objects ev ad for there ours done in
    let after = (reconcile x (deployment_key ev) objects).0.resources in
    (
      ad,
      d,
      s,
      port_or_default ev.port,
      for.0,
      at_d,
      at_s,
      serves,
      serves.ports
          ∙ ap (λ z. (txt "http", (port_or_default z.port, port_or_default z.port)) ∷ []) for.0,
      λ proxy.
          serve_http_resolved domain proxy (ports_of after) now host ev.agent_name ev.tenant_id
            (new_cache ttl) (resolved_for ev.agent_name ev.tenant_id ev.port) at_host nd
            (routed after ev ad' ttl now at_ad (spec ∙ for.0))
          ∙ ap proxied (addressed ev proxy),
    )
