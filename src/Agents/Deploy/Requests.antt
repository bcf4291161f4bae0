-- ===== src/Agents/Deploy/Requests.antt =====
-- What a request to deploy or undeploy an agent leaves behind.
use ai_lab.Prelude.{
  Text, ℕ, ◌≡◌, refl, ◌≢◌, Bool, true, false, Option, none, some, List, [], ◌∷◌, ◌++◌, ltb,
}
use ai_lab.Auth.{Identity}
use ai_lab.Audit.{log, Entry, Action, Resource}
use ai_lab.Audit.Entries.{Says}
use ai_lab.Events.{DeploymentRequested, DeploymentStopped}
use ai_lab.Manifest.{mode_server}
use ai_lab.Agents.{AgentRow, get_agent}
use ai_lab.Agents.Deploy.{
  Board, DeployCall, stop_event, stop_entry, send_stop, undeploy_found, handle_undeploy,
}

-- An event is for an agent, by its tenant, its id and its name.
abbrev pub IsFor : AgentRow → Text → Text → Text → Type 0
IsFor a tenant_id agent_id agent_name =
    (tenant_id ≡ a.tenant_id) × (agent_id ≡ a.id) × (agent_name ≡ a.name)

-- The ways out of a deploy: nothing, or one event to deploy with its entry in the trail.
pub data Deploying (i : Identity) (id : Text) (agents : List AgentRow) (b : Board)
    : Board → ℕ → Type 0 where
  refused : {n : ℕ} → ltb n 300 ≡ false → Deploying i id agents b b n
  sent :
      (a : AgentRow) (ev : DeploymentRequested) (e : Entry)
      → get_agent i.tenant_id id agents ≡ some a
      → a.mode ≡ mode_server
      → a.image ≡ some ev.image
      → ev.image ≢ []
      → IsFor a ev.tenant_id ev.agent_id ev.agent_name
      → Says e Action.deploy Resource.deployment a.id
      → Deploying i id agents b
          (record b { trail = log (some i) e b.trail; requested = b.requested ++ ev ∷ [] })
          202

-- The ways out of an undeploy: nothing, or one event to stop with its entry in the trail.
pub data Stopping (i : Identity) (id : Text) (agents : List AgentRow) (b : Board)
    : Board → ℕ → Type 0 where
  left : {n : ℕ} → ltb n 300 ≡ false → Stopping i id agents b b n
  halted :
      (a : AgentRow) (ev : DeploymentStopped) (e : Entry)
      → get_agent i.tenant_id id agents ≡ some a
      → IsFor a ev.tenant_id ev.agent_id ev.agent_name
      → Says e Action.undeploy Resource.deployment a.id
      → Stopping i id agents b
          (record b { trail = log (some i) e b.trail; stopped = b.stopped ++ ev ∷ [] })
          202

module _ (i : Identity) (c : DeployCall) (id : Text) (agents : List AgentRow) (b : Board) where
  abbrev Deploys : Board × ℕ → Type 0
  Deploys out = Deploying i id agents b out.0 out.1

  abbrev Stops : Board × ℕ → Type 0
  Stops out = Stopping i id agents b out.0 out.1

  send_stop-Stopping :
      (a : AgentRow) (ok : Bool)
      → get_agent i.tenant_id id agents ≡ some a
      → Stops (send_stop i c a ok b)
  send_stop-Stopping a false found = left refl
  send_stop-Stopping a true found =
      halted a (stop_event c a) (stop_entry c a) found (refl, refl, refl) (refl, refl, refl)

  undeploy_found-Stopping :
      (ok : Bool) (o : Option AgentRow)
      → get_agent i.tenant_id id agents ≡ o
      → Stops (undeploy_found i c ok o b)
  undeploy_found-Stopping false o e = left refl
  undeploy_found-Stopping true none e = left refl
  undeploy_found-Stopping true (some a) e = send_stop-Stopping a c.publish_ok e

  -- An undeploy does nothing, with an error status, or, with 202, publishes one event to stop the
  -- agent of the caller's tenant and enters it into the trail.
  handle_undeploy-Stopping :
      Stopping i id agents b
        (handle_undeploy (some i) c id agents b).0
        (handle_undeploy (some i) c id agents b).1
  unfolding handle_undeploy
  handle_undeploy-Stopping =
      undeploy_found-Stopping c.call.repo_ok (get_agent i.tenant_id id agents) refl
