-- ===== src/Examples/Serving.antt =====
-- A concrete server for the AgentDeployment controller and the gateway.
use ai_lab.Prelude.{arith, ◌≡◌, refl, true, some, [], ◌∷◌, txt, same, lookup, insert}
use ai_lab.Gateway.{strip_port}
use ai_lab.Runs.Resources.{AgentDeployment}
use ai_lab.Runs.Dispatch.{deployment_resource, handle_requested}
use ai_lab.Runs.Dispatch.Redelivery.{deployment_key}
use ai_lab.Runs.Serving.{Objects, Pass, key_of, reconcile}
use ai_lab.Runs.Serving.Repeats.{reconcile-reconcile}
use ai_lab.Runs.Serving.Routes.{deployed-IsRouted, IsRouted}
use ai_lab.Examples.Dispatches.{config_1, dispatch_1, no_cluster, deployment_event}

abbrev pass_1 : Pass
pass_1 = record {
  get_ok = true;
  deployment_ok = true;
  service_ok = true;
  live_ok = true;
  status_ok = true;
  ranged = λ env. env;
}

abbrev objects_1 : Objects
objects_1 = record {
  resources =
      (handle_requested config_1 dispatch_1 (some deployment_event) no_cluster).0.deployments;
  deployments = [];
  services = [];
}

deployed-IsRouted_example :
    IsRouted deployment_event
      (txt "run.local")
      (txt "bot.t1.run.local:80")
      30
      7
      (reconcile pass_1 (deployment_key deployment_event) objects_1).0
unfolding handle_requested reconcile lookup insert same strip_port
deployed-IsRouted_example =
    deployed-IsRouted config_1 dispatch_1 deployment_event no_cluster pass_1 objects_1
      (txt "run.local") (txt "bot.t1.run.local:80") 30 7 tt refl refl refl tt refl refl
      (omega arith)

abbrev ad_1 : AgentDeployment
ad_1 = deployment_resource deployment_event

abbrev objects_2 : Objects
objects_2 = record { resources = (key_of ad_1, ad_1) ∷ []; deployments = []; services = [] }

reconcile-reconcile_example :
    let w1 = (reconcile pass_1 (key_of ad_1) objects_2).0 in
    let w2 = (reconcile pass_1 (key_of ad_1) w1).0 in
    (w2.deployments ≡ w1.deployments) × (w2.services ≡ w1.services)
unfolding reconcile lookup same
reconcile-reconcile_example = reconcile-reconcile pass_1 pass_1 objects_2 ad_1 refl refl refl
