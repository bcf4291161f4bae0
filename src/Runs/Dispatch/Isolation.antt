-- ===== src/Runs/Dispatch/Isolation.antt =====
-- An event of one tenant never touches what another tenant's namespace holds.
use ai_lab.Prelude.{
  ℕ, ◌≡◌, ap₂, refl, sym, ap, ◌≢◌, inl, inr, false, some, [], ◌∷◌, ◌++◌, arith, Bool-cases,
  Option-cases, drop, All, Text, same, same→eq, lookup, lookup-insert, lookup-delete, All-append,
  txt,
}
use ai_lab.Events.{RunRequested, DeploymentRequested, DeploymentStopped}
use ai_lab.Runs.Resources.{tenant_namespace}
use ai_lab.Runs.Dispatch.{
  Cluster, object_key, DispatchCall, Config, run_resource, handle_run, deployment_spec,
  deployment_resource, handle_requested, handle_stopped,
}

-- A tenant id or a name that k8s accepts holds no slash.
abbrev pub HasNoSlash : Text → Type 0
HasNoSlash s = All (λ c. c ≢ 47) s

cons_injective : (c d : ℕ) (s t : Text) → Path Text (c ∷ s) (d ∷ t) → (c ≡ d) × (s ≡ t)
cons_injective c d s t e = (cc, cc)

-- The part before the first slash, and the part after it, are determined.
split_at_slash :
    (a b s t : Text)
    → HasNoSlash a
    → HasNoSlash b
    → Path Text (a ++ (47 ∷ s)) (b ++ (47 ∷ t))
    → (a ≡ b) × (s ≡ t)
split_at_slash [] [] s t ha hb e = (refl, (cons_injective 47 47 s t e).1)
split_at_slash [] (d ∷ b) s t ha hb e =
    absurd (hb.0 (sym (cons_injective 47 d s (b ++ (47 ∷ t)) e).0))
split_at_slash (c ∷ a) [] s t ha hb e = absurd (ha.0 (cons_injective c 47 (a ++ (47 ∷ s)) t e).0)
split_at_slash (c ∷ a) (d ∷ b) s t ha hb e =
    let (h, r) = cons_injective c d (a ++ (47 ∷ s)) (b ++ (47 ∷ t)) e in
    let (p, q) = split_at_slash a b s t ha.1 hb.1 r in (ap₂ (λ x (y : Text). x ∷ y) h p, q)

namespace_no_slash : (t : Text) → HasNoSlash t → HasNoSlash (tenant_namespace t)
namespace_no_slash t h = All-append (λ c. c ≢ 47) (txt "tenant-") t (omega arith) h

keys_apart :
    (t t' n n' : Text)
    → HasNoSlash t
    → HasNoSlash t'
    → t ≢ t'
    → same (object_key (tenant_namespace t) n) (object_key (tenant_namespace t') n') ≡ false
keys_apart t t' n n' h h' apart =
    elim (Bool-cases
      (same (object_key (tenant_namespace t) n) (object_key (tenant_namespace t') n'))) [
        | inl e ↦ absurd (
            apart (
              ap (drop 7)
                (split_at_slash (tenant_namespace t) (tenant_namespace t') n n'
                  (namespace_no_slash t h) (namespace_no_slash t' h') (same→eq _ _ e)).0))
        | inr e ↦ e
      ]

module _ (other name : Text) (h' : HasNoSlash other) (w : Cluster) where
  abbrev other_key : Text
  other_key = object_key (tenant_namespace other) name

  run_elsewhere :
      (cfg : Config) (c : DispatchCall) (ev : RunRequested)
      → HasNoSlash ev.tenant_id
      → ev.tenant_id ≢ other
      → lookup other_key (handle_run cfg c (some ev) w).0.runs ≡ lookup other_key w.runs
  unfolding handle_run
  run_elsewhere cfg c ev h apart =
      let k = object_key (tenant_namespace ev.tenant_id) ev.run_id in
      ground (
        arith,
        lookup-insert k other_key (run_resource c.uid ev) w.runs,
        keys_apart ev.tenant_id other ev.run_id name h h' apart,
      )

  requested_elsewhere :
      (cfg : Config) (c : DispatchCall) (ev : DeploymentRequested)
      → HasNoSlash ev.tenant_id
      → ev.tenant_id ≢ other
      → lookup other_key (handle_requested cfg c (some ev) w).0.deployments
        ≡ lookup other_key w.deployments
  unfolding handle_requested
  requested_elsewhere cfg c ev h apart =
      let k = object_key (tenant_namespace ev.tenant_id) ev.agent_name in
      let other_one = keys_apart ev.tenant_id other ev.agent_name name h h' apart in
      elim (Option-cases (lookup k w.deployments)) [
        | inl e ↦
            ground
              (arith, lookup-insert k other_key (deployment_resource ev) w.deployments, other_one)
        | inr (old, e) ↦ ground (
          arith,
          lookup-insert k other_key (record old { spec = deployment_spec ev }) w.deployments,
          other_one,
        )
      ]

  stopped_elsewhere :
      (c : DispatchCall) (ev : DeploymentStopped)
      → HasNoSlash ev.tenant_id
      → ev.tenant_id ≢ other
      → lookup other_key (handle_stopped c (some ev) w).0.deployments
        ≡ lookup other_key w.deployments
  unfolding handle_stopped
  stopped_elsewhere c ev h apart = ground (
    arith,
    lookup-delete (object_key (tenant_namespace ev.tenant_id) ev.agent_name) other_key
        w.deployments,
    keys_apart ev.tenant_id other ev.agent_name name h h' apart,
  )

-- Whatever the outcomes, the three events of a tenant leave every AgentRun and AgentDeployment in
-- another tenant's namespace as it was, if neither tenant id holds a slash.
pub dispatch_isolation :
    (cfg : Config) (c : DispatchCall) (run : RunRequested) (dep : DeploymentRequested)
    (stop : DeploymentStopped) (other name : Text) (w : Cluster)
    → HasNoSlash run.tenant_id
    → HasNoSlash other
    → run.tenant_id ≢ other
    → dep.tenant_id ≡ run.tenant_id
    → stop.tenant_id ≡ run.tenant_id
    → let k = object_key (tenant_namespace other) name in
      (lookup k (handle_run cfg c (some run) w).0.runs ≡ lookup k w.runs)
      × (lookup k (handle_requested cfg c (some dep) w).0.deployments ≡ lookup k w.deployments)
      × (lookup k (handle_stopped c (some stop) w).0.deployments ≡ lookup k w.deployments)
dispatch_isolation cfg c run dep stop other name w h h' apart ed es = (
  run_elsewhere other name h' w cfg c run h apart,
  requested_elsewhere other name h' w cfg c dep (rw ed h) (rw ed apart),
  stopped_elsewhere other name h' w c stop (rw es h) (rw es apart),
)
