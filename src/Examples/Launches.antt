-- ===== src/Examples/Launches.antt =====
-- Concrete launches for internal/runs/handlers.go, internal/triggers and cmd/triggers.
use ai_lab.Prelude.{true, none, some, List, [], ◌∷◌, ◌++◌, length, Text, txt}
use ai_lab.Examples.Agents.{call_1}
use ai_lab.Examples.Audit.{trail_1}
use ai_lab.Examples.Auth.{caller}
use ai_lab.Examples.Manifests.{agent_1}
use ai_lab.Launch.{Desk, Launch, no_body}
use ai_lab.Launch.Webhook.{hook, Delivery}
use ai_lab.Launch.Backing.{IsBacked, Start, by_hand, by_hook, by_clock, launches, launches-IsBacked}

abbrev launch_1 : Launch
launch_1 = record {
  call = record call_1 { id = txt "r1" };
  create_ok = true;
  publish_ok = true;
  trace_id = txt "tr";
  trace_context = [];
  secret_ref = some [];
  at = 6;
}

abbrev desk_1 : Desk
desk_1 = record { runs = []; agents = agent_1 ∷ []; published = []; trail = trail_1 }

-- A keyed hash of one byte, the length of the secret and the body.
abbrev toy_mac : Text → Text → Text
toy_mac secret body = length (secret ++ body) ∷ []

abbrev unsigned : Delivery
unsigned = record { header = txt "sha256=ff"; sent = txt "{}"; read_ok = true }

abbrev signed : Delivery
signed = record { header = txt "sha256=05"; sent = txt "{}"; read_ok = true }

abbrev starts : List Start
starts =
    by_hand launch_1 (some caller) (txt "a1") no_body
    ∷ by_hook toy_mac (λ s. none) launch_1 (hook (txt "g1") (txt "t1") (txt "push") (txt "key"))
        (txt "a1") signed
    ∷ by_clock launch_1 (txt "t1") (txt "a1")
    ∷ []

launches-IsBacked_example : IsBacked (launches starts desk_1)
launches-IsBacked_example = launches-IsBacked starts desk_1 tt
