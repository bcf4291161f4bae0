-- ===== src/Agents/Table.antt =====
-- The agents table after a deletion (Delete of internal/agents/repo.go).
use ai_lab.Prelude.{
  ◌≡◌, ◌↔◌, Bool, true, false, ◌&&◌, none, some, List, arith, Text, same, same_refl, same→eq,
  select_one, any, select_one-delete_where, select_one-delete_where_self, Option, is_some,
  any-select_one,
}
use ai_lab.Agents.{AgentRow, is_agent, get_agent, delete_agent}

missing_iff : (b : Bool) (o : Option AgentRow) → b ≡ is_some o → (b ≡ false) ↔ (o ≡ none)
missing_iff b none e = ground arith
missing_iff b (some a) e = ground arith

-- A deletion leaves no agent under the tenant and the id, and no lookup under another tenant or
-- id changes; it reports a missing row exactly when there was none.
pub get_agent-delete_agent :
    (tenant_id id : Text) (rows : List AgentRow)
    → (get_agent tenant_id id (delete_agent tenant_id id rows).0 ≡ none)
      × ((t i : Text)
          → (same i id && same t tenant_id) ≡ false
          → get_agent t i (delete_agent tenant_id id rows).0 ≡ get_agent t i rows)
      × (((delete_agent tenant_id id rows).1 ≡ false) ↔ (get_agent tenant_id id rows ≡ none))
unfolding get_agent delete_agent
get_agent-delete_agent tenant_id id rows = (
  select_one-delete_where_self (is_agent tenant_id id) rows,
  λ t i h.
      select_one-delete_where (is_agent tenant_id id) (is_agent t i) rows (λ a e. other t i a h e),
  missing_iff (any (is_agent tenant_id id) rows) (select_one (is_agent tenant_id id) rows)
      (any-select_one (is_agent tenant_id id) rows),
)
  where
    other :
        (t i : Text) (a : AgentRow)
        → (same i id && same t tenant_id) ≡ false
        → is_agent tenant_id id a ≡ true
        → is_agent t i a ≡ false
    other t i a h e = ground (
      arith,
      same→eq a.id id,
      same→eq a.tenant_id tenant_id,
      same→eq a.id i,
      same→eq a.tenant_id t,
      same_refl id,
      same_refl tenant_id,
    )
