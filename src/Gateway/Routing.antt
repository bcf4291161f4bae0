-- ===== src/Gateway/Routing.antt =====
-- Which service a request reaches (ServeHTTP, resolve and the cache of cmd/gateway/main.go).
use ai_lab.Prelude.{
  ℕ, ◌+◌, ◌≡◌, subst, refl, sym, ◌∙◌, ◌≢◌, inl, inr, true, Option, none, some, arith, ltb,
  if◌then◌else◌, Bool-cases, Option-cases, Text, same, same→eq, lookup, lookup-insert, ap, Bool,
  List, [], ◌∷◌, ◌++◌,
}
use ai_lab.Gateway.{
  Resolved, CacheEntry, Cache, get, put, cache_key, namespace_of, Deployments, resolved_for,
  resolve, split_dot, parse_host, strip_port, new_cache, Target, target_url, Answer, not_found,
  proxied, serve_http,
}
use ai_lab.Gateway.Hosts.{NoDot, split_dot_join, parse_host_iff}

-- A value under the key that its agent and tenant make, in the namespace of the tenant.
pub record Genuine (k : Text) (r : Resolved) : Type 0 where
  pub dotless : NoDot r.service
  pub keyed : k ≡ cache_key r.service r.tenant_id
  pub homed : r.namespace ≡ namespace_of r.tenant_id

abbrev pub IsValid : Cache → Type 0
IsValid c = (k : Text) (e : CacheEntry) → lookup k c.m ≡ some e → Genuine k e.val

-- A cached value is found under its own key from the time it is put until the TTL has passed, and
-- the values under other keys are as before.
pub get-put :
    (now at : ℕ) (j k : Text) (v : Resolved) (c : Cache)
    → get now j (put at k v c)
      ≡ (if same k j then (if ltb (at + c.ttl) now then none else some v) else get now j c)
unfolding get put
get-put now at j k v c =
    ground (arith, lookup-insert k j (record { val = v; expiry = at + c.ttl }) c.m)

resolved-Genuine :
    (agent tenant : Text) (port : ℕ)
    → NoDot agent
    → Genuine (cache_key agent tenant) (resolved_for agent tenant port)
resolved-Genuine agent tenant port nd = record { dotless = nd; keyed = refl; homed = refl }

put-IsValid :
    (at : ℕ) (k : Text) (v : Resolved) (c : Cache)
    → Genuine k v
    → IsValid c
    → IsValid (put at k v c)
unfolding put
put-IsValid at k v c g h j e q = elim (Bool-cases (same k j)) [
  | inl s ↦
      subst (Genuine j) (value s (sym (lookup-insert k j entry c.m) ∙ q))
        (subst (λ i. Genuine i v) (same→eq k j s) g)
  | inr n ↦ h j e (ground (arith, n, sym (lookup-insert k j entry c.m) ∙ q))
]
  where
    entry : CacheEntry
    entry = record { val = v; expiry = at + c.ttl }

    value : same k j ≡ true → (if same k j then some entry else lookup j c.m) ≡ some e → v ≡ e.val
    value s p = ground (arith, s, p)

get-Genuine :
    (now : ℕ) (k : Text) (v : Resolved) (c : Cache) → IsValid c → get now k c ≡ some v → Genuine k v
unfolding get
get-Genuine now k v c h q = elim (Option-cases (lookup k c.m)) [
  | inl n ↦ absurd (none_of n q)
  | inr (e, at) ↦ subst (Genuine k) (value e at q) (h k e at)
]
  where
    none_of : lookup k c.m ≡ none → get now k c ≢ some v
    none_of n q = ground (arith, n, q)

    value : (e : CacheEntry) → lookup k c.m ≡ some e → get now k c ≡ some v → e.val ≡ v
    value e at q = ground (arith, at, q)

-- What a resolution gives, and the cache it leaves.
record Right (agent tenant : Text) (out : Cache × Option Resolved) : Type 0 where
  valid : IsValid out.0
  right : (r : Resolved) → out.1 ≡ some r → Genuine (cache_key agent tenant) r

resolve-Right :
    (k : Deployments) (now : ℕ) (agent tenant : Text) (c : Cache)
    → NoDot agent
    → IsValid c
    → Right agent tenant (resolve k now agent tenant c)
unfolding resolve
resolve-Right k now agent tenant c nd h =
    go (get now (cache_key agent tenant) c) (k (namespace_of tenant) agent) refl refl
  where
    unsome : {r s : Resolved} → some r ≡ some s → r ≡ s
    unsome q = cc

    go :
        (o : Option Resolved) (p : Option ℕ)
        → get now (cache_key agent tenant) c ≡ o
        → k (namespace_of tenant) agent ≡ p
        → Right agent tenant (resolve k now agent tenant c)
    go (some v) p e f =
        rw (resolve, e)
          (record {
            valid = h;
            right = λ r q. get-Genuine now (cache_key agent tenant) r c h (e ∙ q);
          })
    go none none e f = rw (resolve, e, f) (record { valid = h; right = λ r q. absurd cc })
    go none (some port) e f =
        rw (resolve, e, f)
          (record {
            valid =
                put-IsValid now (cache_key agent tenant) (resolved_for agent tenant port) c
                  (resolved-Genuine agent tenant port nd) h;
            right = λ r q.
                subst (Genuine (cache_key agent tenant)) (unsome q)
                  (resolved-Genuine agent tenant port nd);
          })

-- The one service that a pair of agent and tenant may reach.
abbrev pub service_of : Text → Text → ℕ → Resolved
service_of agent tenant port = record {
  tenant_id = tenant;
  namespace = namespace_of tenant;
  service = agent;
  port = port;
}

Genuine→service :
    (agent tenant : Text) (r : Resolved)
    → NoDot agent
    → Genuine (cache_key agent tenant) r
    → r ≡ service_of agent tenant r.port
Genuine→service agent tenant r nd g =
    let same_pair =
      sym (split_dot_join r.service r.tenant_id g.dotless)
      ∙ ap split_dot (sym g.keyed)
      ∙ split_dot_join agent tenant nd in
    go same_pair g.homed
  where
    go :
        ◌≡◌ {A = Option (Text × Text)} (some (r.service, r.tenant_id)) (some (agent, tenant))
        → r.namespace ≡ namespace_of r.tenant_id
        → r ≡ service_of agent tenant r.port
    go q homed = cc

-- A request: what the API server holds then, the time, and the Host header.
pub record Request : Type 0 where
  pub deployments : Deployments
  pub at : ℕ
  pub host : Text

unfoldable pub cache_after : Text → Bool → List Request → Cache → Cache
cache_after domain proxy [] c = c
cache_after domain proxy (q ∷ qs) c =
    cache_after domain proxy qs ((serve_http domain proxy q.deployments q.at q.host c).0)

-- What a request may come to, and the cache it leaves.
record Served (domain : Text) (proxy : Bool) (host : Text) (out : Cache × Answer) : Type 0 where
  valid : IsValid out.0
  right :
      (t : Target)
      → out.1 ≡ proxied t
      → (agent : Text) × (tenant : Text) × (port : ℕ) × (strip_port host
          ≡ agent ++ b'.' ∷ (tenant ++ b'.' ∷ domain))
        × NoDot agent
        × (t ≡ target_url proxy (service_of agent tenant port))

serve_http-Served :
    (domain : Text) (proxy : Bool) (k : Deployments) (now : ℕ) (host : Text) (c : Cache)
    → IsValid c
    → Served domain proxy host (serve_http domain proxy k now host c)
unfolding serve_http
serve_http-Served domain proxy k now host c h = go (parse_host (strip_port host) domain) refl
  where
    answered :
        (agent tenant : Text)
        → (strip_port host ≡ agent ++ b'.' ∷ (tenant ++ b'.' ∷ domain))
        → NoDot agent
        → (res : Option Resolved) → (resolve k now agent tenant c).1 ≡ res
        → Served domain proxy host (elim res [
          | none ↦ ((resolve k now agent tenant c).0, not_found)
          | some r ↦ ((resolve k now agent tenant c).0, proxied (target_url proxy r))
        ])
    answered agent tenant e nd none q = record {
      valid = (resolve-Right k now agent tenant c nd h).valid;
      right = λ t p. absurd cc;
    }
    answered agent tenant e nd (some r) q = record {
      valid = (resolve-Right k now agent tenant c nd h).valid;
      right = λ t p. (
        agent,
        tenant,
        r.port,
        e,
        nd,
        unproxied p
            ∙ ap (target_url proxy) (
                Genuine→service agent tenant r nd
                  ((resolve-Right k now agent tenant c nd h).right r q)),
      );
    }
      where
        unproxied : {t u : Target} → proxied u ≡ proxied t → t ≡ u
        unproxied p = cc

    go :
        (o : Option (Text × Text))
        → parse_host (strip_port host) domain ≡ o
        → Served domain proxy host (serve_http domain proxy k now host c)
    go none e = rw (serve_http, e) (record { valid = h; right = λ t p. absurd cc })
    go (some (agent, tenant)) e =
        let (whole, nd) = (parse_host_iff (strip_port host) domain agent tenant).0 e in
        rw (serve_http, e) (answered agent tenant whole nd ((resolve k now agent tenant c).1) refl)

-- A host that names an agent and a tenant which resolve is proxied to what they resolve to.
pub serve_http_resolved :
    (domain : Text) (proxy : Bool) (k : Deployments) (now : ℕ) (host agent tenant : Text)
    (c : Cache) (r : Resolved)
    → strip_port host ≡ agent ++ b'.' ∷ (tenant ++ b'.' ∷ domain)
    → NoDot agent
    → (resolve k now agent tenant c).1 ≡ some r
    → (serve_http domain proxy k now host c).1 ≡ proxied (target_url proxy r)
unfolding serve_http
serve_http_resolved domain proxy k now host agent tenant c r named nd found =
    rw (serve_http, (parse_host_iff (strip_port host) domain agent tenant).1 (named, nd), found)
      refl

cache_after-IsValid :
    (domain : Text) (proxy : Bool) (qs : List Request) (c : Cache)
    → IsValid c
    → IsValid (cache_after domain proxy qs c)
unfolding cache_after
cache_after-IsValid domain proxy [] c h = h
cache_after-IsValid domain proxy (q ∷ qs) c h =
    cache_after-IsValid domain proxy qs _
      (serve_http-Served domain proxy q.deployments q.at q.host c h).valid

new_cache-IsValid : (ttl : ℕ) → IsValid (new_cache ttl)
unfolding new_cache lookup
new_cache-IsValid ttl k e h = absurd cc

-- Whatever requests went before, and whatever the API server answered, a request that is proxied
-- goes to the service named by the agent in its host, in the namespace of the tenant in its host.
pub serve_http_isolation :
    (domain : Text) (proxy : Bool) (ttl : ℕ) (before : List Request) (q : Request) (t : Target)
    → (serve_http domain proxy q.deployments q.at q.host
        (cache_after domain proxy before (new_cache ttl))).1
      ≡ proxied t
    → (agent : Text) × (tenant : Text) × (port : ℕ) × (strip_port q.host
        ≡ agent ++ b'.' ∷ (tenant ++ b'.' ∷ domain))
      × NoDot agent
      × (t ≡ target_url proxy (service_of agent tenant port))
serve_http_isolation domain proxy ttl before q t h =
    (serve_http-Served domain proxy q.deployments q.at q.host
        (cache_after domain proxy before (new_cache ttl))
        (cache_after-IsValid domain proxy before (new_cache ttl) (new_cache-IsValid ttl))).right
      t h
