-- ===== src/Vault/Surface.antt =====
-- The secrets' HTTP surface (internal/secrets/handlers.go).
use ai_lab.Prelude.{Text, ℕ, Bool, true, false, Option, none, some, List, [], ◌∷◌}
use ai_lab.Auth.{Identity}
use ai_lab.Audit.{Trail, log, Action, Resource}
use ai_lab.Agents.Handlers.{Call, entry}
use ai_lab.Vault.{Aead, SecretRow, Secret, upsert, list_secrets, delete_secret}

pub record Safe : Type 0 where
  pub secrets : List SecretRow
  pub trail : Trail

-- Handlers.list, with the database's collation
unfoldable pub handle_list :
    (Text → Text → Bool) → Option Identity → Bool → List SecretRow → ℕ × List Secret
handle_list before none ok rows = (401, [])
handle_list before (some i) false rows = (500, [])
handle_list before (some i) true rows = (200, list_secrets before i.tenant_id rows)

abbrev pub stored : Identity → Call → Text → List SecretRow × Bool → Safe → Safe × ℕ
stored i c name (rows, false) s = (s, 500)
stored i c name (rows, true) s = (
  record {
    secrets = rows;
    trail = log (some i) (entry c Action.update Resource.secret name none) s.trail;
  },
  201,
)

-- upsert of a decoded body, given whether its query is served
abbrev pub upsert_served :
    Aead → Text → Option Text → Identity → Call → Text → Text → Bool → Safe → Safe × ℕ
upsert_served g key random i c name value false s = (s, 500)
upsert_served g key random i c name value true s =
    stored i c name (upsert g key random c.id c.now i.tenant_id name value s.secrets) s

-- Handlers.upsert, with the name and the value of a body that decodes
unfoldable pub handle_upsert :
    Aead → Text → Option Text → Option Identity → Call → Option (Text × Text) → Safe → Safe × ℕ
handle_upsert g key random none c body s = (s, 401)
handle_upsert g key random (some i) c none s = (s, 400)
handle_upsert g key random (some i) c (some ([], value)) s = (s, 400)
handle_upsert g key random (some i) c (some (b ∷ name, value)) s =
    upsert_served g key random i c (b ∷ name) value c.repo_ok s

abbrev pub dropped : Identity → Call → Text → List SecretRow × Bool → Safe → Safe × ℕ
dropped i c name (rows, false) s = (s, 404)
dropped i c name (rows, true) s = (
  record {
    secrets = rows;
    trail = log (some i) (entry c Action.delete Resource.secret name none) s.trail;
  },
  204,
)

abbrev pub del_served : Identity → Call → Text → Bool → Safe → Safe × ℕ
del_served i c name false s = (s, 500)
del_served i c name true s = dropped i c name (delete_secret i.tenant_id name s.secrets) s

-- Handlers.del
unfoldable pub handle_del : Option Identity → Call → Text → Safe → Safe × ℕ
handle_del none c name s = (s, 401)
handle_del (some i) c name s = del_served i c name c.repo_ok s
