-- ===== src/Tenants.antt =====
-- Tenants (internal/tenants): their table (repo.go), the webhook that keeps it in step with the
-- WorkOS organizations (webhook.go), and the answer about the caller (me.go). The keyed hash, the
-- name-based UUID, the JSON decoder and strconv.ParseInt are parameters. A duration is in
-- nanoseconds, and so is the clock.
pub mod Signatures
pub mod Removal
use ai_lab.Prelude.{
  Text, ℕ, ◌+◌, ◌*◌, Bool, true, false, not, ◌&&◌, ◌||◌, Option, none, some, List, [], ◌∷◌, ◌++◌,
  ltb, ◌==◌, if◌then◌else◌, coalesce, txt, is_empty, same, split, cut_prefix, trim_space,
  hex_decode, update_where, select_one, any, delete_where,
}
use ai_lab.Auth.{Identity}
use ai_lab.Audit.{Trail, log, Action, Resource, Entry, Event}
use ai_lab.Agents.Handlers.{Call, entry}

pub record Tenant : Type 0 where
  pub id : Text
  pub slug : Text
  pub name : Text
  pub created_at : ℕ

-- The table, and the audit trail that refers to it.
pub record Registry : Type 0 where
  pub tenants : List Tenant
  pub trail : Trail

abbrev pub is_tenant : Text → Tenant → Bool
is_tenant id t = same t.id id

-- Repo.Get: none is db.ErrNotFound.
unfoldable pub get_tenant : Text → List Tenant → Option Tenant
get_tenant id = select_one (is_tenant id)

-- UNIQUE (slug): another tenant has it.
abbrev pub takes_slug : Text → Text → Tenant → Bool
takes_slug id slug t = not (same t.id id) && same t.slug slug

-- Repo.Upsert: none for the error of a slug that is taken.
unfoldable pub upsert_tenant : Text → Text → Text → ℕ → List Tenant → Option (List Tenant)
upsert_tenant id slug name now ts =
    if any (takes_slug id slug) ts
    then none
    else if any (is_tenant id) ts
    then some (update_where (is_tenant id) (λ t. record t { slug = slug; name = name }) ts)
    else some (ts ++ record { id = id; slug = slug; name = name; created_at = now } ∷ [])

-- Repo.Delete, with ON DELETE CASCADE on audit_events; a missing row is no error to the webhook.
abbrev pub of_tenant : Text → Event → Bool
of_tenant id e = same e.tenant_id id

unfoldable pub delete_tenant : Text → Registry → Registry
delete_tenant id s = record {
  tenants = delete_where (is_tenant id) s.tenants;
  trail = record s.trail { events = delete_where (of_tenant id) s.trail.events };
}

abbrev pub tenant_ids : List Tenant → List Text
tenant_ids [] = []
tenant_ids (t ∷ ts) = t.id ∷ tenant_ids ts

-- audit.Log on the trail, whose tenants are those of the table.
abbrev pub logged : Identity → Entry → Registry → Registry
logged i e s = record s {
  trail = log (some i) e (record s.trail { tenants = tenant_ids s.tenants });
}

-- The parts of a signature header: t and v1, each the last one given.
abbrev pub signature_part : Option Text → Option Text → Text × Text → Text × Text
signature_part (some ts) v1 (t, v) = (ts, v)
signature_part none (some v1) (t, v) = (t, v1)
signature_part none none (t, v) = (t, v)

abbrev pub signature_parts : List Text → Text × Text → Text × Text
signature_parts [] acc = acc
signature_parts (p ∷ ps) acc =
    let q = trim_space p in
    signature_parts ps (signature_part (cut_prefix (txt "t=") q) (cut_prefix (txt "v1=") q) acc)

abbrev pub parts_of : Text → Text × Text
parts_of header = signature_parts (split b',' header) ([], [])

abbrev pub second : ℕ
second = 1000000000

-- The tolerance of the handler, five minutes where it is not set.
abbrev pub tolerance_or_default : ℕ → ℕ
tolerance_or_default d = if d == 0 then 300 * second else d

-- A timestamp in seconds is no further than the tolerance from the clock.
abbrev pub is_recent : ℕ → ℕ → ℕ → Bool
is_recent now tolerance ts =
    not (ltb (ts * second + tolerance) now) && not (ltb (now + tolerance) (ts * second))

abbrev pub equals_mac : Option Text → Text → Bool
equals_mac none got = false
equals_mac (some want) got = same want got

-- verify once the timestamp is parsed; a negative one, which is outside any tolerance, is none.
abbrev pub check_mac : (Text → Text → Text) → ℕ → ℕ → Text → Text × Text → Text → Option ℕ → Bool
check_mac mac now tolerance signing_secret (ts_str, v1) body none = false
check_mac mac now tolerance signing_secret (ts_str, v1) body (some ts) =
    is_recent now tolerance ts
    && equals_mac (hex_decode v1) (mac signing_secret (ts_str ++ b'.' ∷ body))

abbrev pub check_parts :
    (Text → Text → Text) → (Text → Option ℕ) → ℕ → ℕ → Text → Text × Text → Text → Bool
check_parts mac parse now tolerance signing_secret (ts_str, v1) body =
    not (is_empty ts_str || is_empty v1)
    && check_mac mac now tolerance signing_secret (ts_str, v1) body (parse ts_str)

-- WebhookHandler.verify; true is nil.
unfoldable pub verify : (Text → Text → Text) → (Text → Option ℕ) → ℕ → ℕ → Text → Text → Text → Bool
verify mac parse now tolerance signing_secret header body =
    not (is_empty signing_secret)
    && check_parts mac parse now (tolerance_or_default tolerance) signing_secret (parts_of header)
        body

-- What the switch of handle tells apart.
pub data Kind : Type 0 where
  created updated deleted : Kind
  unknown : Kind

abbrev pub kind_of : Text → Kind
kind_of event =
    if same event (txt "organization.created")
    then created
    else if same event (txt "organization.updated")
    then updated
    else if same event (txt "organization.deleted")
    then deleted
    else unknown

-- A decoded event: what is no string is empty.
pub record WorkosEvent : Type 0 where
  pub event : Text
  pub org_id : Text
  pub slug : Text
  pub name : Text

abbrev pub identity_of : Text → WorkosEvent → Identity
identity_of tenant_id ev = record { tenant_id = tenant_id; user_id = txt "workos:" ++ ev.event }

abbrev pub slug_of : WorkosEvent → Text
slug_of ev = if is_empty ev.slug then ev.org_id else ev.slug

abbrev pub upsert_entry : Call → Action → Text → WorkosEvent → Entry
upsert_entry c action tenant_id ev =
    entry c action Resource.tenant tenant_id (
      some ((txt "workosOrgId", ev.org_id) ∷ (txt "slug", slug_of ev) ∷ (txt "name", ev.name) ∷ []))

abbrev pub upserted :
    Call → Action → Text → WorkosEvent → Option (List Tenant) → Registry → Registry × ℕ
upserted c action tenant_id ev none s = (s, 500)
upserted c action tenant_id ev (some ts) s = (
  logged (identity_of tenant_id ev) (upsert_entry c action tenant_id ev)
      (record s { tenants = ts }),
  204,
)

abbrev pub upsert_event : Call → Action → Text → WorkosEvent → Bool → Registry → Registry × ℕ
upsert_event c action tenant_id ev false s = (s, 500)
upsert_event c action tenant_id ev true s =
    upserted c action tenant_id ev (upsert_tenant tenant_id (slug_of ev) ev.name c.now s.tenants) s

abbrev pub removal_entry : Call → Text → WorkosEvent → Entry
removal_entry c tenant_id ev =
    entry c Action.delete Resource.tenant tenant_id (some ((txt "workosOrgId", ev.org_id) ∷ []))

-- The switch of handle, given whether the query is served
unfoldable pub dispatch : Call → Text → WorkosEvent → Kind → Bool → Registry → Registry × ℕ
unfolding upsert_tenant delete_tenant
dispatch c tenant_id ev created ok s = upsert_event c Action.create tenant_id ev ok s
dispatch c tenant_id ev updated ok s = upsert_event c Action.update tenant_id ev ok s
dispatch c tenant_id ev deleted false s = (s, 500)
dispatch c tenant_id ev deleted true s = (
  logged (identity_of tenant_id ev) (removal_entry c tenant_id ev) (delete_tenant tenant_id s),
  204,
)
dispatch c tenant_id ev unknown ok s = (s, 204)

abbrev pub handle_event : (Text → Text) → Call → Option WorkosEvent → Registry → Registry × ℕ
handle_event tenant_id_for_org c none s = (s, 400)
handle_event tenant_id_for_org c (some ev) s =
    if is_empty ev.org_id
    then (s, 400)
    else dispatch c (tenant_id_for_org ev.org_id) ev (kind_of ev.event) c.repo_ok s

-- handle once the body is read, given whether it is signed
abbrev pub handle_signed :
    (Text → Text) → Call → Bool → Option WorkosEvent → Registry → Registry × ℕ
handle_signed tenant_id_for_org c false ev s = (s, 401)
handle_signed tenant_id_for_org c true ev s = handle_event tenant_id_for_org c ev s

-- WebhookHandler.handle on what it reads of the body, at most 256 KiB, or none where this fails.
unfoldable pub handle :
    (Text → Text → Bool)
    → (Text → Option WorkosEvent)
    → (Text → Text)
    → Call
    → Text
    → Option Text
    → Registry
    → Registry × ℕ
unfolding dispatch
handle verified decode tenant_id_for_org c header none s = (s, 400)
handle verified decode tenant_id_for_org c header (some body) s =
    handle_signed tenant_id_for_org c (verified header body) (decode body) s

-- The answer of me: a caller whose tenant is not there is shown a shell. The zero time is 0.
pub record Me : Type 0 where
  pub user_id : Text
  pub seat_count : ℕ
  pub tenant : Tenant

abbrev pub shell : Text → Tenant
shell id = record { id = id; slug = []; name = txt "(unprovisioned)"; created_at = 0 }

unfoldable pub me : Option Identity → Bool → List Tenant → ℕ × Option Me
me none ok ts = (401, none)
me (some i) false ts = (500, none)
me (some i) true ts = (
  200,
  some (record {
    user_id = i.user_id;
    seat_count = 1;
    tenant = coalesce (get_tenant i.tenant_id ts) (shell i.tenant_id);
  }),
)
