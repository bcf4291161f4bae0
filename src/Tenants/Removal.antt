-- ===== src/Tenants/Removal.antt =====
-- What is left of a tenant whose organization was deleted.
use ai_lab.Prelude.{
  Text, ◌≡◌, Bool, false, none, any, refl, ap, ◌∙◌, true, List, [], ◌∷◌, arith, same, same_iff,
  delete_where, any-delete_where, select_one-delete_where_self,
}
use ai_lab.Auth.{Identity}
use ai_lab.Audit.{Trail, log, Entry, insert_event}
use ai_lab.Agents.Handlers.{Call}
use ai_lab.Tenants.{
  Tenant, Registry, get_tenant, of_tenant, delete_tenant, WorkosEvent, dispatch, is_tenant,
  tenant_ids, Kind, identity_of, removal_entry,
}

no_id_left :
    (id : Text) (ts : List Tenant)
    → any (same id) (tenant_ids (delete_where (is_tenant id) ts)) ≡ false
no_id_left id [] = refl
no_id_left id (t ∷ ts) = ground (arith, no_id_left id ts, same_iff id t.id, same_iff t.id id)

not_inserted :
    (i : Identity) (e : Entry) (served known : Bool) (t : Trail)
    → known ≡ false
    → (insert_event i e served known t).events ≡ t.events
not_inserted i e false known t h = refl
not_inserted i e true false t h = refl
not_inserted i e true true t h = absurd cc

-- After an organization.deleted that is answered 204 the tenant is gone, and the audit trail has no
-- event of it at all, not even the entry that the handler makes of the deletion.
pub deletion_unaudited :
    (c : Call) (tenant_id : Text) (ev : WorkosEvent) (ok : Bool) (s : Registry)
    → (dispatch c tenant_id ev Kind.deleted ok s).1 ≡ 204
    → let s' = (dispatch c tenant_id ev Kind.deleted ok s).0 in
      (get_tenant tenant_id s'.tenants ≡ none) × (any (of_tenant tenant_id) s'.trail.events ≡ false)
unfolding dispatch get_tenant delete_tenant log
deletion_unaudited c tenant_id ev false s h = absurd (omega (arith, h))
deletion_unaudited c tenant_id ev true s h = (
  select_one-delete_where_self (is_tenant tenant_id) s.tenants,
  ap (any (of_tenant tenant_id)) (
        not_inserted (identity_of tenant_id ev) (removal_entry c tenant_id ev) c.audit_ok
          (any (same tenant_id) (tenant_ids (delete_where (is_tenant tenant_id) s.tenants)))
          (record (delete_tenant tenant_id s).trail {
            tenants = tenant_ids (delete_where (is_tenant tenant_id) s.tenants);
          })
          (no_id_left tenant_id s.tenants))
      ∙ any-delete_where (of_tenant tenant_id) s.trail.events,
)
