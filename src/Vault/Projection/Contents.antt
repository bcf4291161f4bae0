-- ===== src/Vault/Projection/Contents.antt =====
-- What stands in the Secret that a run or an agent's server is given.
use ai_lab.Prelude.{
  Text, ℕ, ◌≡◌, subst, refl, sym, ◌∙◌, ◌≢◌, inl, inr, Bool, true, false, ◌&&◌, Option, none, some,
  List, [], ◌∷◌, arith, Bool-cases, length, same, IsBytes, lookup, insert, lookup-insert,
  lookup-insert_self,
}
use ai_lab.Runs.Dispatch.{object_key}
use ai_lab.Runs.Resources.{tenant_namespace}
use ai_lab.Vault.{Aead, SecretRow, upsert, resolve}
use ai_lab.Vault.Box.{IsAead}
use ai_lab.Vault.Table.{IsUnique, resolve-upsert}
use ai_lab.Vault.Projection.{
  Kube, KubeSecret, KubeCall, ensure_tenant_namespace, replace, put_secret, upsert_secret,
  project_for_run, project_for_agent, Holder, for_run, for_agent, project_for, secret_name,
  named_if, project_into, project_resolved, project_secrets,
}

abbrev pub secret_key : Text → Holder → Text
secret_key tenant_id h = object_key (tenant_namespace tenant_id) (secret_name h)

-- The Secret of a holder has just these entries, and every other Secret is as it was.
abbrev pub HasJust : Text → Holder → List (Text × Text) → Kube → Kube → Type 0
HasJust tenant_id h entries w w' =
    ((s : KubeSecret) × (lookup (secret_key tenant_id h) w'.secrets ≡ some s)
      × (s.entries ≡ entries))
    × ((k : Text)
        → same (secret_key tenant_id h) k ≡ false
        → lookup k w'.secrets ≡ lookup k w.secrets)

inserted :
    (tenant_id : Text) (h : Holder) (s : KubeSecret) (w : Kube)
    → HasJust tenant_id h s.entries w
        (record w { secrets = insert (secret_key tenant_id h) s w.secrets })
inserted tenant_id h s w = (
  (s, lookup-insert_self (secret_key tenant_id h) s w.secrets, refl),
  λ k apart. lookup-insert (secret_key tenant_id h) k s w.secrets ∙ rw apart refl,
)

put_secret-HasJust :
    (c : KubeCall) (tenant_id : Text) (h : Holder) (entries labels : List (Text × Text))
    (o : Option KubeSecret) (w : Kube)
    → (put_secret c (secret_key tenant_id h) entries labels o w).1 ≡ true
    → HasJust tenant_id h entries w (put_secret c (secret_key tenant_id h) entries labels o w).0
put_secret-HasJust c tenant_id h entries labels none w done = elim (Bool-cases c.create_ok) [
  | inl e ↦ rw e (inserted tenant_id h (record { labels = labels; entries = entries }) w)
  | inr n ↦ absurd (ground arith)
]
put_secret-HasJust c tenant_id h entries labels (some live) w done =
    elim (Bool-cases (c.create_ok && (c.get_ok && c.update_ok))) [
      | inl e ↦ rw e (inserted tenant_id h (replace entries labels live) w)
      | inr n ↦ absurd (ground arith)
    ]

project_for-HasJust :
    (c : KubeCall) (tenant_id : Text) (h : Holder) (entries : List (Text × Text)) (w : Kube)
    → (project_for c tenant_id h entries w).1 ≡ true
    → HasJust tenant_id h entries w (project_for c tenant_id h entries w).0
unfolding project_for_run project_for_agent upsert_secret
project_for-HasJust c tenant_id (for_run id) entries w done =
    put_secret-HasJust c tenant_id (for_run id) entries _ (lookup _ w.secrets) w done
project_for-HasJust c tenant_id (for_agent id) entries w done =
    put_secret-HasJust c tenant_id (for_agent id) entries _ (lookup _ w.secrets) w done

named_done :
    (h : Holder) (out : Kube × Bool) (ref : Text)
    → (named_if h out).1 ≡ some ref
    → (out.1 ≡ true) × (ref ≡ secret_name h) × ((named_if h out).0 ≡ out.0)
named_done h (w, true) ref e = (refl, cc, refl)
named_done h (w, false) ref e = absurd cc

project_into-HasJust :
    (c : KubeCall) (tenant_id : Text) (h : Holder) (entries : List (Text × Text)) (ok : Bool)
    (w : Kube) (ref : Text)
    → let out = project_into c tenant_id h entries (ensure_tenant_namespace ok tenant_id w) in
      out.1 ≡ some ref → (ref ≡ secret_name h) × HasJust tenant_id h entries w out.0
project_into-HasJust c tenant_id h entries false w ref e = absurd cc
project_into-HasJust c tenant_id h entries true w ref e =
    let w1 = (ensure_tenant_namespace true tenant_id w).0 in
    let out = project_for c tenant_id h entries w1 in
    let (done, name, same_kube) = named_done h out ref e in
    (
      name,
      subst (HasJust tenant_id h entries w) (sym same_kube)
          (project_for-HasJust c tenant_id h entries w1 done),
    )

project_resolved-HasJust :
    (c : KubeCall) (tenant_id : Text) (h : Holder) (o : Option (List (Text × Text))) (w : Kube)
    (ref : Text)
    → (project_resolved c tenant_id h o w).1 ≡ some ref
    → (entries : List (Text × Text)) × (o ≡ some entries)
      × (ref ≡ secret_name h)
      × HasJust tenant_id h entries w (project_resolved c tenant_id h o w).0
project_resolved-HasJust c tenant_id h none w ref e = absurd cc
project_resolved-HasJust c tenant_id h (some entries) w ref e =
    let (name, just) = project_into-HasJust c tenant_id h entries c.namespace_ok w ref e in
    (entries, refl, name, just)

-- A projection of one or more names that yields a reference has resolved them, and the reference
-- names the holder's Secret in the tenant's namespace, whose entries are just the resolved ones,
-- whatever it held before; every other Secret of the cluster is as it was.
pub project_secrets-HasJust :
    (resolved : List Text → Option (List (Text × Text))) (c : KubeCall) (tenant_id : Text)
    (h : Holder) (n : Text) (ns : List Text) (w : Kube) (ref : Text)
    → (project_secrets resolved c tenant_id h (n ∷ ns) w).1 ≡ some ref
    → (entries : List (Text × Text)) × (resolved (n ∷ ns) ≡ some entries)
      × (ref ≡ secret_name h)
      × HasJust tenant_id h entries w (project_secrets resolved c tenant_id h (n ∷ ns) w).0
unfolding project_secrets
project_secrets-HasJust resolved c tenant_id h n ns w ref e =
    project_resolved-HasJust c tenant_id h (resolved (n ∷ ns)) w ref e

-- A value that was stored under a name stands, by itself and in the clear, in the Secret that a
-- later projection of that name yields, over a table with one row for each tenant and name.
pub stored_is_projected :
    (g : Aead) (key nonce id : Text) (now : ℕ) (tenant_id name value : Text) (rows : List SecretRow)
    (c : KubeCall) (h : Holder) (w : Kube) (ref : Text)
    → IsAead g
    → length nonce ≡ g.nonce_size
    → IsBytes nonce
    → IsBytes value
    → name ≢ []
    → IsUnique rows
    → let rows' = (upsert g key (some nonce) id now tenant_id name value rows).0 in
      let out =
        project_secrets (λ ns. resolve g key tenant_id ns rows') c tenant_id h (name ∷ []) w in
      out.1 ≡ some ref → HasJust tenant_id h ((name, value) ∷ []) w out.0
stored_is_projected g key nonce id now tenant_id name value rows c h w ref law size cn cv given u
      e =
    let rows' = (upsert g key (some nonce) id now tenant_id name value rows).0 in
    let (entries, got, named, just) =
      project_secrets-HasJust (λ ns. resolve g key tenant_id ns rows') c tenant_id h name [] w ref
        e in
    let back = resolve-upsert g key nonce id now tenant_id name value rows law size cn cv given u in
    let q : entries ≡ (name, value) ∷ [] = cc in
    subst
      (λ es.
        HasJust tenant_id h es w
          (project_secrets (λ ns. resolve g key tenant_id ns rows') c tenant_id h (name ∷ []) w).0)
      q just
