-- ===== src/Audit/Entries.antt =====
-- What the audit trail holds, and who sees it.
use ai_lab.Prelude.{
  ℕ, ◌≤◌, ◌≡◌, refl, true, false, Option, some, List, [], ◌∷◌, ◌++◌, arith, length, All, Text, same,
  same→eq, any, IsDescending, page_lem_le, Bool, ◌&&◌,
}
use ai_lab.Auth.{Identity}
use ai_lab.Audit.{
  Event, Trail, Entry, event_row, log, scan_event, list_events, insert_event, Action, Resource,
}

-- The columns that a list answer shows of the row of an entry.
abbrev pub Records : Identity → Entry → Event → Type 0
Records i e r =
    (r.tenant_id ≡ i.tenant_id)
    × (r.user_id ≡ some i.user_id)
    × (r.action ≡ e.action)
    × (r.resource_type ≡ e.resource_type)
    × (r.resource_id ≡ some e.resource_id)

-- What an entry of an identity does to the trail, given whether the insertion goes through.
abbrev pub Adds : Identity → Entry → Bool → Trail → Trail → Type 0
Adds i e true t t' =
    (r : Event) × (t'.events ≡ t.events ++ r ∷ []) × (r.id ≡ t.next_id) × Records i e r
Adds i e false t t' = t'.events ≡ t.events

insert_event-Adds :
    (i : Identity) (e : Entry) (served known : Bool) (t : Trail)
    → Adds i e (served && known) t (insert_event i e served known t)
insert_event-Adds i e false known t = refl
insert_event-Adds i e true false t = refl
insert_event-Adds i e true true t =
    (event_row i e t.next_id, refl, refl, (refl, refl, refl, refl, refl))

-- An entry by an identity adds one row at the end of the table, with the identity's tenant and user
-- and what the entry names, if the insertion is served and the tenant exists, and else none; no row
-- is lost or changed either way.
pub log-Adds :
    (i : Identity) (e : Entry) (t : Trail)
    → Adds i e (e.served && any (same i.tenant_id) t.tenants) t (log (some i) e t)
unfolding log
log-Adds i e t = insert_event-Adds i e e.served (any (same i.tenant_id) t.tenants) t

-- A page of the audit trail holds only events of the caller's tenant, at most 500 whatever limit is
-- asked for, the newest first.
pub list_events_page :
    (tenant_id : Text) (limit : Option ℕ) (rows : List Event)
    → let out = list_events tenant_id limit rows in
      All (λ e. e.tenant_id ≡ tenant_id) out × (length out ≤ 500) × IsDescending (λ e. e.id) out
unfolding list_events
list_events_page tenant_id limit rows =
    page_lem_le scan_event (λ e. e.id) (λ e. e.tenant_id ≡ tenant_id)
      (λ e. same e.tenant_id tenant_id) (λ e h. same→eq e.tenant_id tenant_id h) 100 500 limit rows
      (omega arith)

-- What an entry says: that an action was done to a resource under an id.
abbrev pub Says : Entry → Action → Resource → Text → Type 0
Says e action kind id = (e.action ≡ action) × (e.resource_type ≡ kind) × (e.resource_id ≡ id)
