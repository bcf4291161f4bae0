-- ===== src/Manifest.antt =====
-- The agent manifest and its validation (pkg/manifest/manifest.go). Names are bytes; the expression
-- of nameRe is matched by a function that follows its parts.
pub mod Names
pub mod WellFormed
use ai_lab.Prelude.{
  ℕ, zero, suc, ◌+◌, Bool, false, not, ◌&&◌, ◌||◌, Option, none, some, List, [], ◌∷◌, ltb, leb,
  ◌==◌, if◌then◌else◌, Text, txt, is_empty, same,
}

-- A Go int.
pub data ℤ : Type 0 where
  pos : ℕ → ℤ
  negsuc : ℕ → ℤ

abbrev pub schema_version : Text
schema_version = txt "v1"

abbrev pub mode_job : Text
mode_job = txt "job"

abbrev pub mode_server : Text
mode_server = txt "server"

abbrev pub runtime_python : Text
runtime_python = txt "python"

abbrev pub runtime_type_script : Text
runtime_type_script = txt "typescript"

abbrev pub runtime_container : Text
runtime_container = txt "container"

abbrev pub trigger_manual : Text
trigger_manual = txt "manual"

abbrev pub trigger_webhook : Text
trigger_webhook = txt "webhook"

abbrev pub trigger_cron : Text
trigger_cron = txt "cron"

pub record Trigger : Type 0 where
  pub kind : Text
  pub name : Text
  pub cron : Text
  pub webhook : Option Text

pub record Server : Type 0 where
  pub port : ℤ
  pub health_path : Text
  pub idle_timeout : Text

pub record Resources : Type 0 where
  pub cpu : Text
  pub memory : Text
  pub timeout : Text
  pub disk_size : Text

pub record Manifest : Type 0 where
  pub schema_version : Text
  pub name : Text
  pub mode : Text
  pub runtime : Text
  pub image : Text
  pub entrypoint : List Text
  pub inputs : Option Text
  pub outputs : Option Text
  pub env : List (Text × Text)
  pub secrets : List Text
  pub resources : Resources
  pub triggers : List Trigger
  pub server : Option Server

-- [a-z0-9]
abbrev pub is_alnum : ℕ → Bool
is_alnum c = (leb b'a' c && leb c b'z') || (leb b'0' c && leb c b'9')

-- [-a-z0-9]
abbrev pub is_label_char : ℕ → Bool
is_label_char c = (c == b'-') || is_alnum c

-- [-a-z0-9]{0,n}[a-z0-9]$
unfoldable pub matches_rest : ℕ → Text → Bool
matches_rest n [] = false
matches_rest n (c ∷ []) = is_alnum c
matches_rest zero (c ∷ d ∷ s) = false
matches_rest (suc n) (c ∷ d ∷ s) = is_label_char c && matches_rest n (d ∷ s)

-- nameRe
unfoldable pub name_re_matches : Text → Bool
unfolding matches_rest
name_re_matches [] = false
name_re_matches (c ∷ []) = is_alnum c
name_re_matches (c ∷ d ∷ s) = is_alnum c && matches_rest 61 (d ∷ s)

pub data Invalid : Type 0 where
  manifest_nil bad_schema bad_name bad_mode bad_runtime image_required image_forbidden : Invalid
  server_required bad_port : Invalid
  cron_required unknown_kind : ℕ → Invalid

abbrev pub port_in_range : ℤ → Bool
port_in_range (pos n) = ltb 0 n && leb n 65535
port_in_range (negsuc n) = false

-- The loop over the triggers, from the index of the first.
unfoldable pub validate_triggers : ℕ → List Trigger → Option Invalid
validate_triggers i [] = none
validate_triggers i (t ∷ ts) =
    let rest = validate_triggers (i + 1) ts in
    if same t.kind trigger_manual || same t.kind trigger_webhook
    then rest
    else if same t.kind trigger_cron
    then (if is_empty t.cron then some (cron_required i) else rest)
    else some (unknown_kind i)

abbrev pub is_mode : Text → Bool
is_mode m = same m mode_job || same m mode_server

abbrev pub is_runtime : Text → Bool
is_runtime r = same r runtime_python || (same r runtime_type_script || same r runtime_container)

-- The block for mode: server, with what follows it.
unfoldable pub validate_server : Text → Option Server → Option Invalid → Option Invalid
validate_server mode server rest =
    if same mode mode_server
    then (elim server [
      | none ↦ some server_required
      | some s ↦ if port_in_range s.port then rest else some bad_port
    ])
    else rest

-- Validate; none is nil, and the receiver may be nil too.
unfoldable pub validate : Option Manifest → Option Invalid
unfolding validate_server
validate none = some manifest_nil
validate (some m) =
    if not (same m.schema_version schema_version)
    then some bad_schema
    else if not (name_re_matches m.name)
    then some bad_name
    else if not (is_mode m.mode)
    then some bad_mode
    else if not (is_runtime m.runtime)
    then some bad_runtime
    else if same m.runtime runtime_container && is_empty m.image
    then some image_required
    else if not (same m.runtime runtime_container) && not (is_empty m.image)
    then some image_forbidden
    else validate_server m.mode m.server (validate_triggers 0 m.triggers)
