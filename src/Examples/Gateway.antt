-- ===== src/Examples/Gateway.antt =====
-- Concrete hosts and requests for cmd/gateway.
use ai_lab.Prelude.{ℕ, ◌≡◌, refl, false, some, [], ◌∷◌, ◌++◌, Text, txt, same, lookup}
use ai_lab.Gateway.{
  strip_suffix, split_dot, strip_port, new_cache, Deployments, in_cluster, target_url, serve_http,
}
use ai_lab.Gateway.Hosts.{NoDot}
use ai_lab.Gateway.Routing.{service_of, Request, cache_after, serve_http_isolation}

abbrev one_port : Deployments
one_port ns name = some 9090

abbrev request_1 : Request
request_1 = record { deployments = one_port; at = 5; host = txt "bot.t1.run.local:80" }

serve_http_isolation_example :
    (agent : Text) × (tenant : Text) × (port : ℕ) × (strip_port (txt "bot.t1.run.local:80")
      ≡ agent ++ b'.' ∷ (tenant ++ b'.' ∷ txt "run.local"))
    × NoDot agent
    × (in_cluster (txt "bot.tenant-t1.svc.cluster.local") 9090
        ≡ target_url false (service_of agent tenant port))
unfolding serve_http cache_after new_cache lookup same strip_suffix split_dot
serve_http_isolation_example =
    serve_http_isolation (txt "run.local") false 30 [] request_1
      (in_cluster (txt "bot.tenant-t1.svc.cluster.local") 9090) refl
