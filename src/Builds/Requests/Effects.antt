-- ===== src/Builds/Requests/Effects.antt =====
-- What a request for a build leaves behind, and what the builder makes of it.
use ai_lab.Prelude.{
  Text, ℕ, ◌≡◌, refl, ◌≢◌, Bool, true, false, Option, none, some, [], ◌∷◌, ◌++◌, arith, ltb,
}
use ai_lab.Auth.{Identity}
use ai_lab.Audit.{log}
use ai_lab.Agents.{AgentRow, get_agent}
use ai_lab.Builds.Requests.{
  Yard, BuildCall, with_row, build_event, build_entry, submit, create_found, handle_create,
}

-- The ways out of a request: nothing, a pending row alone, or a pending row with its event and its
-- entry in the trail.
pub data Effect (i : Identity) (c : BuildCall) (agent_id : Text) (y : Yard)
    : Yard → ℕ → Type 0 where
  unchanged : {n : ℕ} → ltb n 300 ≡ false → Effect i c agent_id y y n
  stranded : (source_url : Text) → Effect i c agent_id y (with_row i c agent_id source_url y) 502
  submitted :
      (a : AgentRow) (source_url : Text)
      → get_agent i.tenant_id agent_id y.db.agents ≡ some a
      → source_url ≢ []
      → Effect i c agent_id y
          (record (with_row i c agent_id source_url y) {
            trail = log (some i) (build_entry c agent_id source_url) y.trail;
            published = y.published ++ build_event i c agent_id source_url ∷ [];
          })
          202

module _ (i : Identity) (c : BuildCall) (agent_id : Text) (y : Yard) where
  abbrev Ends : Yard × ℕ → Type 0
  Ends out = Effect i c agent_id y out.0 out.1

  submit-Effect :
      (a : AgentRow) (source_url : Text) (p q : Bool)
      → get_agent i.tenant_id agent_id y.db.agents ≡ some a
      → source_url ≢ []
      → Ends (submit i c agent_id source_url p q y)
  submit-Effect a source_url false q found full = unchanged refl
  submit-Effect a source_url true false found full = stranded source_url
  submit-Effect a source_url true true found full = submitted a source_url found full

  create_found-Effect :
      (ok : Bool) (o : Option AgentRow) (body : Option Text)
      → get_agent i.tenant_id agent_id y.db.agents ≡ o
      → Ends (create_found i c agent_id ok o body y)
  create_found-Effect false o body e = unchanged refl
  create_found-Effect true none body e = unchanged refl
  create_found-Effect true (some a) none e = unchanged refl
  create_found-Effect true (some a) (some []) e = unchanged refl
  create_found-Effect true (some a) (some (b ∷ url)) e =
      submit-Effect a (b ∷ url) c.insert_ok c.publish_ok e (ground arith)

  -- A request for a build, whatever its body and however its calls go, does one of three things:
  -- nothing, with an error status; a pending row alone, with 502; or, with 202, a pending row, the
  -- one event of it and its entry in the trail, for an agent of the caller's tenant and a source that
  -- is not empty.
  pub create_build-Effect :
      (body : Option Text)
      → Effect i c agent_id y
          (handle_create (some i) c agent_id body y).0
          (handle_create (some i) c agent_id body y).1
  unfolding handle_create
  create_build-Effect body =
      create_found-Effect c.call.repo_ok (get_agent i.tenant_id agent_id y.db.agents) body refl
