-- ===== src/Launch/Backing.antt =====
-- Every published run.requested has its row, over launches of all kinds.
use ai_lab.Prelude.{
  ◌≡◌, sym, ◌∙◌, ◌⊎◌, inl, inr, Bool, Option, none, some, List, [], ◌∷◌, ◌++◌, All, All-append,
  All-map, Text,
}
use ai_lab.Events.{RunRequested}
use ai_lab.Runs.Rows.{RunRow}
use ai_lab.Auth.{Identity}
use ai_lab.Launch.{Desk, Launch, Body, trigger, fire}
use ai_lab.Launch.Webhook.{Hook, no_hook, broken_hook, hook, Delivery, webhook}
use ai_lab.Launch.Effects.{
  Trace, Effect, nothing, stuck, started, trigger-Effect, webhook-Effect, fire-Effect,
}

-- A run of the table with the id, the tenant and the agent of an event.
abbrev pub HasRow : RunRequested → List RunRow → Type 0
HasRow ev [] = ⊥
HasRow ev (r ∷ rows) =
    ((r.id ≡ ev.run_id) × (r.tenant_id ≡ ev.tenant_id) × (r.agent_id ≡ ev.agent_id))
    ⊎ HasRow ev rows

abbrev pub IsBacked : Desk → Type 0
IsBacked d = All (λ ev. HasRow ev d.runs) d.published

-- One launch, by whichever way.
pub data Start : Type 0 where
  by_hand : Launch → Option Identity → Text → Body → Start
  by_hook : (Text → Text → Text) → (Text → Option Text) → Launch → Hook → Text → Delivery → Start
  by_clock : Launch → Text → Text → Start

abbrev pub launch : Start → Desk → Desk
launch (by_hand l id agent_id body) d = (trigger l id agent_id body d).0
launch (by_hook mac decode l h agent_id q) d = (webhook mac decode l h agent_id q d).0
launch (by_clock l tenant_id agent_id) d = (fire l tenant_id agent_id d).0

abbrev pub launches : List Start → Desk → Desk
launches [] d = d
launches (s ∷ rest) d = launches rest (launch s d)

HasRow-append : (ev : RunRequested) (xs ys : List RunRow) → HasRow ev xs → HasRow ev (xs ++ ys)
HasRow-append ev [] ys h = absurd h
HasRow-append ev (x ∷ xs) ys (inl h) = inl h
HasRow-append ev (x ∷ xs) ys (inr h) = inr (HasRow-append ev xs ys h)

HasRow-append_new :
    (ev : RunRequested) (xs : List RunRow) (r : RunRow)
    → (r.id ≡ ev.run_id) × (r.tenant_id ≡ ev.tenant_id) × (r.agent_id ≡ ev.agent_id)
    → HasRow ev (xs ++ r ∷ [])
HasRow-append_new ev [] r h = inl h
HasRow-append_new ev (x ∷ xs) r h = inr (HasRow-append_new ev xs r h)

Effect-IsBacked :
    (trace : Trace) (tenant_id agent_id : Text) (d e : Desk) (ok : Bool)
    → Effect trace tenant_id agent_id d e ok
    → IsBacked d
    → IsBacked e
Effect-IsBacked trace tenant_id agent_id d e ok nothing h = h
Effect-IsBacked trace tenant_id agent_id d e ok (stuck r t p) h =
    All-map (λ ev b. HasRow-append ev d.runs (r ∷ []) b) d.published h
Effect-IsBacked trace tenant_id agent_id d e ok (started r ev t b l) h =
    All-append (λ x. HasRow x (d.runs ++ r ∷ [])) d.published (ev ∷ [])
      (All-map (λ x k. HasRow-append x d.runs (r ∷ []) k) d.published h)
      (
        HasRow-append_new ev d.runs r (
          b.same_run,
          b.same_tenant.0 ∙ sym b.same_tenant.1,
          b.same_agent.0 ∙ sym b.same_agent.1,
        ),
        tt,
      )

launch-IsBacked : (s : Start) (d : Desk) → IsBacked d → IsBacked (launch s d)
unfolding trigger webhook
launch-IsBacked (by_hand l none agent_id body) d h = h
launch-IsBacked (by_hand l (some i) agent_id body) d h =
    Effect-IsBacked _ i.tenant_id agent_id d _ _ (trigger-Effect l agent_id d i body) h
launch-IsBacked (by_hook mac decode l no_hook agent_id q) d h = h
launch-IsBacked (by_hook mac decode l broken_hook agent_id q) d h = h
launch-IsBacked (by_hook mac decode l (hook id t name key) agent_id q) d h =
    Effect-IsBacked _ t agent_id d _ _ (webhook-Effect l agent_id d mac decode id t name key q) h
launch-IsBacked (by_clock l t agent_id) d h =
    Effect-IsBacked _ t agent_id d _ _ (fire-Effect l agent_id d t) h

-- If every published run.requested has a row of its run under its tenant and agent, the same
-- holds after any launches, by hand, by webhook or by the clock, and with whatever outcomes: no
-- event goes out for a run that is not stored.
pub launches-IsBacked : (ss : List Start) (d : Desk) → IsBacked d → IsBacked (launches ss d)
launches-IsBacked [] d h = h
launches-IsBacked (s ∷ rest) d h = launches-IsBacked rest (launch s d) (launch-IsBacked s d h)
