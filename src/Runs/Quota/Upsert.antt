-- ===== src/Runs/Quota/Upsert.antt =====
-- Applying the quotas of a namespace is idempotent and leaves other namespaces alone.
use ai_lab.Prelude.{
  ◌≡◌, true, false, ◌&&◌, some, List, arith, if◌then◌else◌, Text, is_empty, same, lookup,
  lookup-insert, insert-insert,
}
use ai_lab.Runs.Quota.{
  QuotaSpec, LimitSpec, UpsertCall, upsert_ownedlessly, quota_hard, limit_range, Quotas,
  ensure_tenant_quotas,
}

module _ {ℓ} {V : Type ℓ} where
  -- An upsert that succeeds has stored the desired object under its namespace and touched no
  -- other namespace; one that fails has stored nothing.
  pub upsert_ownedlessly_effect :
      (c : UpsertCall) (ns j : Text) (v : V) (m : List (Text × V))
      → let r = upsert_ownedlessly c ns v m in
        lookup j r.0 ≡ (if r.1 && same ns j then some v else lookup j m)
  unfolding upsert_ownedlessly
  upsert_ownedlessly_effect c ns j v m = ground (arith, lookup-insert ns j v m)

  -- Repeated, it stores the same again.
  pub upsert_ownedlessly_twice :
      (c d : UpsertCall) (ns : Text) (v : V) (m : List (Text × V))
      → (upsert_ownedlessly c ns v m).1 ≡ true
      → (upsert_ownedlessly d ns v (upsert_ownedlessly c ns v m).0).0
        ≡ (upsert_ownedlessly c ns v m).0
  unfolding upsert_ownedlessly
  upsert_ownedlessly_twice c d ns v m h =
      ground (arith, insert-insert ns v v m, lookup-insert ns ns v m)

-- A success of both calls, with a CPU request quota and a CPU maximum that are not empty, leaves the
-- namespace with exactly the configured quota and limit range, and every other namespace with
-- those that it had.
pub ensure_tenant_quotas_effect :
    (c d : UpsertCall) (ns j : Text) (q : QuotaSpec) (l : LimitSpec) (s : Quotas)
    → (ensure_tenant_quotas c d ns q l s).1 ≡ true
    → is_empty q.cpu ≡ false
    → is_empty l.max_cpu ≡ false
    → let r = (ensure_tenant_quotas c d ns q l s).0 in
      (lookup j r.hard ≡ (if same ns j then some (quota_hard q) else lookup j s.hard))
      × (lookup j r.limits ≡ (if same ns j then some (limit_range l) else lookup j s.limits))
unfolding ensure_tenant_quotas
ensure_tenant_quotas_effect c d ns j q l s h full capped = (
  ground (arith, upsert_ownedlessly_effect c ns j (quota_hard q) s.hard),
  ground (arith, upsert_ownedlessly_effect d ns j (limit_range l) s.limits),
)
