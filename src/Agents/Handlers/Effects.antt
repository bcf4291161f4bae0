-- ===== src/Agents/Handlers/Effects.antt =====
-- What a request to the agents' surface leaves behind.
use ai_lab.Prelude.{
  ℕ, ◌≡◌, refl, inl, inr, Bool, true, false, Option, none, some, [], ◌∷◌, ◌++◌, ltb, Option-cases,
  is_some, Text, any, delete_where, ap, ◌∙◌, any-select_one, List, All, same, ◌≢◌,
}
use ai_lab.Auth.{Identity}
use ai_lab.Audit.{log, Action, Resource, Entry}
use ai_lab.Audit.Entries.{Says}
use ai_lab.Manifest.{Manifest, validate}
use ai_lab.Agents.{AgentRow, is_agent, get_agent, delete_agent}
use ai_lab.Agents.Handlers.{Site, Call, entry, delete_served, handle_delete}

-- The columns of a row are those of its manifest, and its tenant is the caller's.
abbrev pub IsRowOf : Identity → AgentRow → Type 0
IsRowOf i a =
    (a.tenant_id ≡ i.tenant_id)
    × (a.name ≡ a.manifest.name)
    × (a.mode ≡ a.manifest.mode)
    × (a.runtime ≡ a.manifest.runtime)

abbrev pub IsFree : Text → Text → List AgentRow → Type 0
IsFree tenant_id name rows = All (λ r. r.tenant_id ≡ tenant_id → r.name ≢ name) rows

-- The ways out of a creation: nothing, or a stored agent with its entry in the trail.
pub data Creation (i : Identity) (s : Site) (body : Option Manifest) : Site → ℕ → Type 0 where
  refused : {n : ℕ} → ltb n 300 ≡ false → Creation i s body s n
  stored :
      (a : AgentRow) (e : Entry)
      → body ≡ some a.manifest
      → validate (some a.manifest) ≡ none
      → IsRowOf i a
      → IsFree i.tenant_id a.name s.agents
      → any (same i.tenant_id) s.trail.tenants ≡ true
      → Says e Action.create Resource.agent a.id
      → Creation i s body
          (record { agents = s.agents ++ a ∷ []; trail = log (some i) e s.trail })
          201

-- The ways out of a deletion: nothing, or an agent of the tenant that is gone, with its entry.
pub data Deletion (i : Identity) (s : Site) (id : Text) : Site → ℕ → Type 0 where
  kept : {n : ℕ} → ltb n 300 ≡ false → Deletion i s id s n
  removed :
      (a : AgentRow) (e : Entry)
      → get_agent i.tenant_id id s.agents ≡ some a
      → Says e Action.delete Resource.agent id
      → Deletion i s id
          (record {
            agents = delete_where (is_agent i.tenant_id id) s.agents;
            trail = log (some i) e s.trail;
          })
          204

-- A deletion does one of two things: nothing, with an error status; or, with 204, it removes the
-- agent of the caller's tenant with the id asked for, and enters this into the trail.
handle_delete-Deletion :
    (i : Identity) (c : Call) (id : Text) (s : Site)
    → Deletion i s id (handle_delete (some i) c id s).0 (handle_delete (some i) c id s).1
unfolding handle_delete delete_agent get_agent
handle_delete-Deletion i c id s = served c.repo_ok
  where
    found :
        (o : Option AgentRow)
        → get_agent i.tenant_id id s.agents ≡ o
        → any (is_agent i.tenant_id id) s.agents ≡ is_some o
    found o e = any-select_one (is_agent i.tenant_id id) s.agents ∙ ap is_some e

    served :
        (ok : Bool) → Deletion i s id (delete_served i c id ok s).0 (delete_served i c id ok s).1
    served false = kept refl
    served true = elim (Option-cases (get_agent i.tenant_id id s.agents)) [
      | inl e ↦ rw (found none e) (kept refl)
      | inr (a, e) ↦
          rw (found (some a) e)
            (removed a (entry c Action.delete Resource.agent id none) e (refl, refl, refl))
    ]
