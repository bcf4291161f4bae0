-- ===== src/Manifest/WellFormed.antt =====
-- Validation accepts exactly the well-formed manifests.
use ai_lab.Prelude.{
  ℕ, ◌+◌, ◌≤◌, ◌<◌, ◌≡◌, refl, ◌≢◌, ◌↔◌, ◌⊎◌, true, Option, none, some, List, [], ◌∷◌, arith, All,
  Text, is_empty, same→eq, inl, inr, same_refl, false, not, ◌&&◌, Bool-cases, same, same_iff,
}
use ai_lab.Manifest.{
  pos, schema_version, mode_job, mode_server, runtime_python, runtime_type_script,
  runtime_container, trigger_manual, trigger_webhook, trigger_cron, Trigger, Server, Manifest,
  validate_triggers, ℤ, negsuc, Invalid, port_in_range, validate_server, validate, is_mode,
  is_runtime,
}
use ai_lab.Manifest.Names.{IsLabel, name_re_matches_iff}

abbrev pub IsTrigger : Trigger → Type 0
IsTrigger t =
    (t.kind ≡ trigger_manual)
    ⊎ ((t.kind ≡ trigger_webhook) ⊎ ((t.kind ≡ trigger_cron) × (t.cron ≢ [])))

abbrev pub HasPort : Option Server → Type 0
HasPort none = ⊥
HasPort (some s) = (n : ℕ) × (s.port ≡ pos n) × (0 < n) × (n ≤ 65535)

pub record IsWellFormed (m : Manifest) : Type 0 where
  pub schema : m.schema_version ≡ schema_version
  pub label : IsLabel m.name
  pub mode : (m.mode ≡ mode_job) ⊎ (m.mode ≡ mode_server)
  pub runtime :
      (m.runtime ≡ runtime_python)
      ⊎ ((m.runtime ≡ runtime_type_script) ⊎ (m.runtime ≡ runtime_container))
  pub image : (m.runtime ≡ runtime_container) ↔ (m.image ≢ [])
  pub server : m.mode ≡ mode_server → HasPort m.server
  pub triggers : All IsTrigger m.triggers

is_empty→eq : (s : Text) → is_empty s ≡ true → s ≡ []
is_empty→eq [] h = refl
is_empty→eq (c ∷ s) h = cc

triggers→spec : (i : ℕ) (ts : List Trigger) → validate_triggers i ts ≡ none → All IsTrigger ts
unfolding validate_triggers
triggers→spec i [] h = tt
triggers→spec i (t ∷ ts) h = (
  ground (
    arith,
    same→eq t.kind trigger_manual,
    same→eq t.kind trigger_webhook,
    same→eq t.kind trigger_cron,
    is_empty→eq t.cron,
  ),
  triggers→spec (i + 1) ts (ground arith),
)

spec→triggers : (i : ℕ) (ts : List Trigger) → All IsTrigger ts → validate_triggers i ts ≡ none
unfolding validate_triggers
spec→triggers i [] h = refl
spec→triggers i (t ∷ ts) (inl e, h) =
    ground (arith, spec→triggers (i + 1) ts h, e, same_refl trigger_manual)
spec→triggers i (t ∷ ts) (inr (inl e), h) =
    ground (arith, spec→triggers (i + 1) ts h, e, same_refl trigger_webhook)
spec→triggers i (t ∷ ts) (inr (inr (e, n)), h) =
    ground (arith, spec→triggers (i + 1) ts h, e, n, same_refl trigger_cron, is_empty→eq t.cron)

in_range→port : (s : Server) → port_in_range s.port ≡ true → HasPort (some s)
in_range→port s h = go s.port refl
  where
    go : (p : ℤ) → s.port ≡ p → HasPort (some s)
    go (pos n) e = (n, e, ground arith, ground arith)
    go (negsuc n) e = ground arith

port→in_range : (s : Server) → HasPort (some s) → port_in_range s.port ≡ true
port→in_range s (n, e, low, high) = rw e (ground (arith, low, high))

server→spec :
    (mode : Text) (server : Option Server) (rest : Option Invalid)
    → validate_server mode server rest ≡ none
    → (mode ≡ mode_server → HasPort server) × (rest ≡ none)
unfolding validate_server
server→spec mode none rest h = ground (arith, same_refl mode_server)
server→spec mode (some s) rest h = ground (arith, same_refl mode_server, in_range→port s)

spec→server :
    (mode : Text) (server : Option Server) (rest : Option Invalid)
    → (mode ≡ mode_server → HasPort server)
    → rest ≡ none
    → validate_server mode server rest ≡ none
unfolding validate_server
spec→server mode none rest h e = ground (arith, same→eq mode mode_server, h)
spec→server mode (some s) rest h e = ground (arith, same→eq mode mode_server, h, port→in_range s)

valid→server :
    (m : Manifest)
    → validate (some m) ≡ none
    → validate_server m.mode m.server (validate_triggers 0 m.triggers) ≡ none
unfolding validate
valid→server m h = ground arith

known_mode : (m : Manifest) → (m.mode ≡ mode_job) ⊎ (m.mode ≡ mode_server) → is_mode m.mode ≡ true
known_mode m (inl e) = ground (arith, e, same_refl mode_job)
known_mode m (inr e) = ground (arith, e, same_refl mode_server)

known_runtime :
    (m : Manifest)
    → (m.runtime ≡ runtime_python)
      ⊎ ((m.runtime ≡ runtime_type_script) ⊎ (m.runtime ≡ runtime_container))
    → is_runtime m.runtime ≡ true
known_runtime m (inl e) = ground (arith, e, same_refl runtime_python)
known_runtime m (inr (inl e)) = ground (arith, e, same_refl runtime_type_script)
known_runtime m (inr (inr e)) = ground (arith, e, same_refl runtime_container)

image_present :
    (m : Manifest)
    → (m.runtime ≡ runtime_container → m.image ≢ [])
    → (same m.runtime runtime_container && is_empty m.image) ≡ false
image_present m h = ground (arith, same→eq m.runtime runtime_container, is_empty→eq m.image, h)

image_absent :
    (m : Manifest)
    → (m.image ≢ [] → m.runtime ≡ runtime_container)
    → (not (same m.runtime runtime_container) && not (is_empty m.image)) ≡ false
image_absent m h = elim (Bool-cases (is_empty m.image)) [
  | inl e ↦ ground (arith, e)
  | inr n ↦ rw (h (λ e. non_empty m.image e n), same_refl runtime_container) refl
]
  where
    non_empty : (s : Text) → s ≡ [] → is_empty s ≡ false → ⊥
    non_empty [] e n = cc
    non_empty (c ∷ s) e n = cc

-- Validate accepts a manifest exactly when it is well formed: the schema version is v1, the name a
-- DNS-1123 label, mode and runtime are known, an image is given exactly for the container
-- runtime, a server has a port from 1 to 65535, and every trigger is of a known kind, a cron
-- trigger with an expression.
pub validate_iff : (m : Manifest) → (validate (some m) ≡ none) ↔ IsWellFormed m
unfolding validate
validate_iff m = (
  λ h.
      let (server, triggers) =
        server→spec m.mode m.server (validate_triggers 0 m.triggers) (valid→server m h) in
      record {
        schema = ground (arith, same→eq m.schema_version schema_version);
        label = (name_re_matches_iff m.name).0 (ground arith);
        mode = ground (arith, same→eq m.mode mode_job, same→eq m.mode mode_server);
        runtime = ground (
          arith,
          same→eq m.runtime runtime_python,
          same→eq m.runtime runtime_type_script,
          same→eq m.runtime runtime_container,
        );
        image = (
          λ e n. ground (arith, e, n, same_refl runtime_container),
          λ n. ground (arith, same→eq m.runtime runtime_container, is_empty→eq m.image),
        );
        server = server;
        triggers = triggers→spec 0 m.triggers triggers;
      },
  λ w.
      let server =
        spec→server m.mode m.server (validate_triggers 0 m.triggers) w.server
          (spec→triggers 0 m.triggers w.triggers) in
      rw
        (
          (same_iff m.schema_version schema_version).1 w.schema,
          (name_re_matches_iff m.name).1 w.label,
          known_mode m w.mode,
          known_runtime m w.runtime,
          image_present m w.image.0,
          image_absent m w.image.1,
        )
        server,
)
