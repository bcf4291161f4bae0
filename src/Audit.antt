-- ===== src/Audit.antt =====
-- The audit trail (internal/audit): Log and List of repo.go, list of handlers.go, and the export
-- pass of export.go with the store of objects as an oracle. The clock is an argument. The table
-- refers to tenants (migrations/005_audit.sql), so a row of a tenant that is gone is refused.
pub mod Entries
pub mod Exports
use ai_lab.Prelude.{
  ℕ, zero, suc, ◌+◌, Bool, true, false, not, ◌&&◌, Option, none, some, List, [], ◌∷◌, ◌++◌, map,
  ltb, if◌then◌else◌, coalesce, Text, is_empty, same, any, page, page_size, batch, last_key,
  insert_asc,
}
use ai_lab.Auth.{Identity}

pub data Action : Type 0 where
  create update delete trigger deploy undeploy rotate invoke : Action

-- The Resource constants, and the text "tenant" of internal/tenants/webhook.go.
pub data Resource : Type 0 where
  agent run trigger build secret deployment tenant : Resource

-- A row. The metadata is kept as its encoding, `none` for NULL.
pub record Event : Type 0 where
  pub id : ℕ
  pub tenant_id : Text
  pub user_id : Option Text
  pub action : Action
  pub resource_type : Resource
  pub resource_id : Option Text
  pub metadata : Option Text
  pub request_id : Option Text
  pub created_at : ℕ

-- The table with its sequence, and the ids of the tenants it refers to.
pub record Trail : Type 0 where
  pub events : List Event
  pub next_id : ℕ
  pub tenants : List Text

-- The arguments of Log, with what the database and the encoder make of it: metadata that cannot be
-- encoded is none.
pub record Entry : Type 0 where
  pub action : Action
  pub resource_type : Resource
  pub resource_id : Text
  pub metadata : Option Text
  pub request_id : Text
  pub now : ℕ
  pub served : Bool

abbrev pub event_row : Identity → Entry → ℕ → Event
event_row i e id = record {
  id = id;
  tenant_id = i.tenant_id;
  user_id = some i.user_id;
  action = e.action;
  resource_type = e.resource_type;
  resource_id = some e.resource_id;
  metadata = e.metadata;
  request_id = if is_empty e.request_id then none else some e.request_id;
  created_at = e.now;
}

-- The insertion, given whether it is served and whether the tenant exists. A refused row draws a
-- number from the sequence too.
abbrev pub insert_event : Identity → Entry → Bool → Bool → Trail → Trail
insert_event i e false known t = t
insert_event i e true false t = record t { next_id = t.next_id + 1 }
insert_event i e true true t = record t {
  events = t.events ++ event_row i e t.next_id ∷ [];
  next_id = t.next_id + 1;
}

-- The two moments of the insertion: it draws its id from the sequence, and its row is seen by others
-- when it commits, by when other insertions may have drawn and committed theirs. The rows are listed
-- by their ids.
unfoldable pub draw_event_id : Trail → Trail
draw_event_id t = record t { next_id = t.next_id + 1 }

unfoldable pub commit_event : Identity → Entry → ℕ → Trail → Trail
commit_event i e id t =
    if any (same i.tenant_id) t.tenants
    then record t { events = insert_asc (λ v. v.id) (event_row i e id) t.events }
    else t

-- Repo.Log with no other insertion between the two; its error is dropped.
unfoldable pub log : Option Identity → Entry → Trail → Trail
log none e t = t
log (some i) e t = insert_event i e e.served (any (same i.tenant_id) t.tenants) t

-- Repo.List: the newest rows of the tenant, as they are scanned.
abbrev pub scan_event : Event → Event
scan_event e = record e {
  user_id = some (coalesce e.user_id []);
  resource_id = some (coalesce e.resource_id []);
  request_id = some (coalesce e.request_id []);
}

unfoldable pub list_events : Text → Option ℕ → List Event → List Event
list_events tenant_id limit rows =
    map scan_event
      (page (λ e. e.id) (λ e. same e.tenant_id tenant_id) (page_size 100 500 limit) rows)

-- The parameter limit of the query: none where it is empty or no number, else Atoi's int.
abbrev pub asked_limit : Option (Option ℕ) → Option ℕ
asked_limit none = some 100
asked_limit (some n) = n

-- Handlers.list: the status, and the events of a 200.
unfoldable pub list :
    Option Identity → Option (Option ℕ) → Bool → List Event → Option (List Event) × ℕ
list none limit read_ok rows = (none, 401)
list (some i) limit false rows = (none, 500)
list (some i) limit true rows = (some (list_events i.tenant_id (asked_limit limit) rows), 200)

-- The state of an export: the table, the checkpoint of destination s3, and the objects stored,
-- each by its key with the lines of its events.
pub record Archive : Type 0 where
  pub trail : Trail
  pub last_event_id : Option ℕ
  pub objects : List (Text × List Event)

-- How the calls of one pass go, and the key that it makes of the day and a fresh uuid. A failing
-- PutObject may still have stored its object.
pub record Pass : Type 0 where
  pub read_ok : Bool
  pub put_ok : Bool
  pub stored_anyway : Bool
  pub advance_ok : Bool
  pub key : Text

-- The SELECT of Run.
unfoldable pub export_batch : ℕ → ℕ → List Event → List Event
export_batch = batch (λ e. e.id)

-- The UPDATE of the checkpoint, given whether it goes through and its guard holds.
abbrev pub advance_export : Bool → ℕ → Archive → Archive
advance_export true newest_id s = record s { last_event_id = some newest_id }
advance_export false newest_id s = s

-- One object with a line for each event of a batch, given whether it is stored.
abbrev pub store : Bool → Text → List Event → Archive → Archive
store true key events s = record s { objects = s.objects ++ (key, map scan_event events) ∷ [] }
store false key events s = s

-- Run once the batch is read, given whether PutObject succeeds; true is nil.
abbrev pub export_rows : Bool → Pass → ℕ → List Event → Archive → Archive × Bool
export_rows put_ok x last_id [] s = (s, true)
export_rows true x last_id (e ∷ es) s =
    let newest_id = last_key (λ v. v.id) e es in
    (
      advance_export (x.advance_ok && ltb last_id newest_id) newest_id
          (store true x.key (e ∷ es) s),
      x.advance_ok,
    )
export_rows false x last_id (e ∷ es) s = (store x.stored_anyway x.key (e ∷ es) s, false)

-- Run from the checkpoint that it reads, given whether the query succeeds.
abbrev pub export_from : ℕ → Pass → Option ℕ → Bool → Archive → Archive × Bool
export_from n x none read_ok s = (s, false)
export_from n x (some last_id) false s = (s, false)
export_from n x (some last_id) true s =
    export_rows x.put_ok x last_id (export_batch last_id n s.trail.events) s

-- Exporter.Run, with the batch size that NewExporter has set.
unfoldable pub export_run : ℕ → Pass → Archive → Archive × Bool
export_run n x s = export_from n x s.last_event_id x.read_ok s

-- The batch size of NewExporter; none stands for a size below 0.
abbrev pub export_size : Option ℕ → ℕ
export_size none = 5000
export_size (some zero) = 5000
export_size (some (suc n)) = suc n
