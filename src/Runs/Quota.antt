-- ===== src/Runs/Quota.antt =====
-- The ResourceQuota and LimitRange of a tenant's namespace (internal/runs/quota.go), each under
-- the name tenant-default, so one per namespace. A quantity is kept as the operator wrote it:
-- resource.MustParse panics on one that does not parse, and is not modelled.
pub mod Upsert
use ai_lab.Prelude.{
  Bool, true, false, not, ◌&&◌, none, some, List, [], ◌∷◌, ◌++◌, if◌then◌else◌, Text, txt, is_empty,
  lookup, insert,
}

pub record QuotaSpec : Type 0 where
  pub cpu : Text
  pub memory : Text
  pub pods : Text

pub record LimitSpec : Type 0 where
  pub default_cpu : Text
  pub default_memory : Text
  pub max_cpu : Text
  pub max_memory : Text

-- corev1.ResourceList
abbrev pub ResourceList : Type 0
ResourceList = List (Text × Text)

pub record LimitRange : Type 0 where
  pub default_request : ResourceList
  pub default : ResourceList
  pub max : ResourceList

-- Whether the calls of upsertOwnedlessly reach the API server and are served.
pub record UpsertCall : Type 0 where
  pub create_ok : Bool
  pub get_ok : Bool
  pub update_ok : Bool

abbrev pub resource_if_set : Text → Text → ResourceList
resource_if_set name value = if is_empty value then [] else (name, value) ∷ []

-- upsertOwnedlessly, by namespace; true is nil.
unfoldable pub upsert_ownedlessly {ℓ} :
    {V : Type ℓ} → UpsertCall → Text → V → List (Text × V) → List (Text × V) × Bool
upsert_ownedlessly c ns desired m = if not c.create_ok then (m, false) else elim (lookup ns m) [
  | none ↦ (insert ns desired m, true)
  | some live ↦
      if not c.get_ok
      then (m, false)
      else if not c.update_ok
      then (m, false)
      else (insert ns desired m, true)
]

abbrev pub quota_hard : QuotaSpec → ResourceList
quota_hard q =
    resource_if_set (txt "requests.cpu") q.cpu
    ++ (resource_if_set (txt "requests.memory") q.memory ++ resource_if_set (txt "pods") q.pods)

-- ensureResourceQuota
unfoldable pub ensure_resource_quota :
    UpsertCall → Text → QuotaSpec → List (Text × ResourceList) → List (Text × ResourceList) × Bool
unfolding upsert_ownedlessly
ensure_resource_quota c ns q m =
    if is_empty q.cpu && (is_empty q.memory && is_empty q.pods)
    then (m, true)
    else upsert_ownedlessly c ns (quota_hard q) m

abbrev pub limit_range : LimitSpec → LimitRange
limit_range l =
    let defaults =
      resource_if_set (txt "cpu") l.default_cpu
      ++ resource_if_set (txt "memory") l.default_memory in
    record {
      default_request = defaults;
      default = defaults;
      max = resource_if_set (txt "cpu") l.max_cpu ++ resource_if_set (txt "memory") l.max_memory;
    }

-- ensureLimitRange
unfoldable pub ensure_limit_range :
    UpsertCall → Text → LimitSpec → List (Text × LimitRange) → List (Text × LimitRange) × Bool
unfolding upsert_ownedlessly
ensure_limit_range c ns l m =
    if is_empty l.default_cpu
      && (is_empty l.default_memory && (is_empty l.max_cpu && is_empty l.max_memory))
    then (m, true)
    else upsert_ownedlessly c ns (limit_range l) m

pub record Quotas : Type 0 where
  pub hard : List (Text × ResourceList)
  pub limits : List (Text × LimitRange)

-- EnsureTenantQuotas: the limit range is not tried after a failing quota.
unfoldable pub ensure_tenant_quotas :
    UpsertCall → UpsertCall → Text → QuotaSpec → LimitSpec → Quotas → Quotas × Bool
unfolding ensure_resource_quota ensure_limit_range
ensure_tenant_quotas c d ns q l s =
    let (hard', quota_ok) = ensure_resource_quota c ns q s.hard in
    let (limits', limit_ok) = ensure_limit_range d ns l s.limits in
    if not quota_ok
    then (record s { hard = hard' }, false)
    else (record { hard = hard'; limits = limits' }, limit_ok)
