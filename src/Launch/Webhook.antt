-- ===== src/Launch/Webhook.antt =====
-- A run started by a signed webhook (webhook and verifySignature of internal/triggers/handlers.go).
-- The keyed hash of crypto/hmac and the JSON decoder are parameters.
use ai_lab.Agents.{AgentRow, get_agent}
use ai_lab.Prelude.{
  ℕ, ◌*◌, Bool, true, false, not, ◌&&◌, Option, none, some, [], ◌∷◌, ◌++◌, ltb, ◌==◌, if◌then◌else◌,
  length, take, Text, txt, is_empty, same, cut_prefix, hex_decode,
}
use ai_lab.Agents.Handlers.{entry}
use ai_lab.Audit.{Action, Resource}
use ai_lab.Launch.{Desk, Launch, Note, runnable_image, queue}

abbrev pub all_zero : Text → Bool
all_zero [] = true
all_zero (c ∷ s) = (c == 0) && all_zero s

abbrev pub matches_mac : Option Text → Text → Bool
matches_mac none got = false
matches_mac (some want) got = same want got && (ltb 0 (length want) && not (all_zero want))

abbrev pub signed_hex : Option Text → Option Text
signed_hex none = none
signed_hex (some h) = hex_decode h

-- verifySignature, given the keyed hash
unfoldable pub verify_signature : (Text → Text → Text) → Text → Text → Text → Bool
unfolding hex_decode
verify_signature mac header body key =
    if is_empty header
    then false
    else matches_mac (signed_hex (cut_prefix (txt "sha256=") header)) (mac key body)

-- A webhook trigger, its id, its tenant and its name, with its opened secret, as
-- FindWebhookForVerification returns it.
pub data Hook : Type 0 where
  no_hook broken_hook : Hook
  hook : Text → Text → Text → Text → Hook

abbrev pub webhook_run :
    Launch → Note → Text → AgentRow → Option Text → Option Text → Desk → Desk × ℕ
webhook_run l note tenant_id a none inputs d = (d, 422)
webhook_run l note tenant_id a (some image) inputs d =
    queue l note tenant_id a image inputs l.create_ok (some []) l.publish_ok d

abbrev pub webhook_agent :
    Launch → Note → Text → Bool → Option AgentRow → Option Text → Desk → Desk × ℕ
webhook_agent l note tenant_id false found inputs d = (d, 500)
webhook_agent l note tenant_id true none inputs d = (d, 404)
webhook_agent l note tenant_id true (some a) inputs d =
    webhook_run l note tenant_id a (runnable_image a) inputs d

abbrev pub max_body : ℕ
max_body = 1024 * 1024

-- json.Unmarshal into the inputs, best effort
abbrev pub inputs_from : (Text → Option Text) → Text → Option Text
inputs_from decode body = if is_empty body then none else decode body

-- webhook once the trigger is found, given whether the body is read and whether it is signed
abbrev pub webhook_signed :
    Launch → Note → Text → Text → Bool → Bool → Option Text → Desk → Desk × ℕ
webhook_signed l note tenant_id agent_id false signed inputs d = (d, 400)
webhook_signed l note tenant_id agent_id true false inputs d = (d, 401)
webhook_signed l note tenant_id agent_id true true inputs d =
    webhook_agent l note tenant_id l.call.repo_ok (get_agent tenant_id agent_id d.agents) inputs d

-- A webhook request: the signature header, and the body as sent; `read_ok` for the reading of it.
pub record Delivery : Type 0 where
  pub header : Text
  pub sent : Text
  pub read_ok : Bool

-- The entry of an invoked webhook, under an identity made for it
abbrev pub hook_note : Launch → Text → Text → Text → Note
hook_note l trigger_id tenant_id name a = some (
  record { tenant_id = tenant_id; user_id = txt "webhook:" ++ name },
  entry l.call Action.invoke Resource.trigger trigger_id
      (some ((txt "agentId", a.id) ∷ (txt "runId", l.call.id) ∷ [])),
)

-- Handlers.webhook
unfoldable pub webhook :
    (Text → Text → Text) → (Text → Option Text) → Launch → Hook → Text → Delivery → Desk → Desk × ℕ
unfolding verify_signature
webhook mac decode l no_hook agent_id q d = (d, 404)
webhook mac decode l broken_hook agent_id q d = (d, 500)
webhook mac decode l (hook trigger_id tenant_id name key) agent_id q d =
    let body = take max_body q.sent in
    webhook_signed l (hook_note l trigger_id tenant_id name) tenant_id agent_id q.read_ok
      (verify_signature mac q.header body key) (inputs_from decode body) d
