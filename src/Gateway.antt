-- ===== src/Gateway.antt =====
-- The gateway in front of the agents' servers (cmd/gateway/main.go): a host name becomes a service
-- in a tenant's namespace. The API server is an oracle from a namespace and a name to the port of
-- the AgentDeployment, an int32 that is 0 where the spec has none. The proxying itself is left out.
pub mod Hosts
pub mod Routing
use ai_lab.Prelude.{
  ℕ, ◌+◌, Bool, true, false, Option, none, some, List, [], ◌∷◌, ◌++◌, ltb, ◌==◌, if◌then◌else◌,
  Text, txt, is_empty, same, lookup, insert,
}

pub record Resolved : Type 0 where
  pub tenant_id : Text
  pub namespace : Text
  pub service : Text
  pub port : ℕ

-- strings.TrimSuffix behind strings.HasSuffix; `none` where the suffix is missing.
unfoldable pub strip_suffix : Text → Text → Option Text
strip_suffix suffix [] = if same [] suffix then some [] else none
strip_suffix suffix (c ∷ s) =
    let rest = strip_suffix suffix s in
    if same (c ∷ s) suffix then some [] else (elim rest [ none ↦ none | some p ↦ some (c ∷ p) ])

-- strings.SplitN(s, ".", 2), where it has two parts
unfoldable pub split_dot : Text → Option (Text × Text)
split_dot [] = none
split_dot (c ∷ s) =
    let rest = split_dot s in
    if c == b'.' then some ([], s) else (elim rest [ none ↦ none | some p ↦ some (c ∷ p.0, p.1) ])

unfoldable pub parse_host : Text → Text → Option (Text × Text)
parse_host host domain = elim (strip_suffix (b'.' ∷ domain) host) [
  | none ↦ none
  | some prefix ↦ split_dot prefix
]

-- What stands before the last colon, if there is one.
abbrev pub before_last_colon : Text → Option Text
before_last_colon [] = none
before_last_colon (c ∷ s) =
    let rest = before_last_colon s in
    elim rest [ none ↦ (if c == b':' then some [] else none) | some p ↦ some (c ∷ p) ]

-- The host without its port: the colon counts from index 1 on.
unfoldable pub strip_port : Text → Text
strip_port host = elim (before_last_colon host) [
  | none ↦ host
  | some p ↦ if is_empty p then host else p
]

pub record CacheEntry : Type 0 where
  pub val : Resolved
  pub expiry : ℕ

pub record Cache : Type 0 where
  pub ttl : ℕ
  pub m : List (Text × CacheEntry)

unfoldable pub new_cache : ℕ → Cache
new_cache ttl = record { ttl = ttl; m = [] }

-- cache.get at a time
unfoldable pub get : ℕ → Text → Cache → Option Resolved
get now k c = elim (lookup k c.m) [
  | none ↦ none
  | some e ↦ if ltb e.expiry now then none else some e.val
]

-- cache.put at a time
unfoldable pub put : ℕ → Text → Resolved → Cache → Cache
put now k v c = record c { m = insert k (record { val = v; expiry = now + c.ttl }) c.m }

abbrev pub cache_key : Text → Text → Text
cache_key agent tenant = agent ++ b'.' ∷ tenant

abbrev pub namespace_of : Text → Text
namespace_of tenant = txt "tenant-" ++ tenant

-- The AgentDeployment under a namespace and a name: its port, or `none` for an error of the Get.
abbrev pub Deployments : Type 0
Deployments = Text → Text → Option ℕ

abbrev pub resolved_for : Text → Text → ℕ → Resolved
resolved_for agent tenant port = record {
  tenant_id = tenant;
  namespace = namespace_of tenant;
  service = agent;
  port = if port == 0 then 8080 else port;
}

-- gateway.resolve
unfoldable pub resolve : Deployments → ℕ → Text → Text → Cache → Cache × Option Resolved
unfolding get put
resolve k now agent tenant c = elim (get now (cache_key agent tenant) c) [
  | some v ↦ (c, some v)
  | none ↦ elim (k (namespace_of tenant) agent) [
    | none ↦ (c, none)
    | some port ↦
        let res = resolved_for agent tenant port in
        (put now (cache_key agent tenant) res c, some res)
  ]
]

pub data Target : Type 0 where
  in_cluster : Text → ℕ → Target
  api_proxy : Text → Text → ℕ → Target

-- gateway.targetURL: the host and port in the cluster, or the parts of the proxy's path.
unfoldable pub target_url : Bool → Resolved → Target
target_url true r = api_proxy r.namespace r.service r.port
target_url false r =
    in_cluster (r.service ++ b'.' ∷ (r.namespace ++ txt ".svc.cluster.local")) r.port

pub data Answer : Type 0 where
  bad_host not_found : Answer
  proxied : Target → Answer

-- gateway.ServeHTTP up to the proxying
unfoldable pub serve_http : Text → Bool → Deployments → ℕ → Text → Cache → Cache × Answer
unfolding parse_host strip_port resolve target_url
serve_http domain use_api_proxy k now host c = elim (parse_host (strip_port host) domain) [
  | none ↦ (c, bad_host)
  | some p ↦
      let (c', res) = resolve k now p.0 p.1 c in
      elim res [ none ↦ (c', not_found) | some r ↦ (c', proxied (target_url use_api_proxy r)) ]
]
