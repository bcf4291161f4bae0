-- ===== src/Runs/Rows/Queries.antt =====
-- What the reads of internal/runs/repo.go return.
use ai_lab.Prelude.{
  ℕ, ◌≤◌, ◌≡◌, inl, inr, Bool, false, ◌&&◌, Option, some, List, [], ◌∷◌, arith, Option-cases, All,
  Text, same, same_refl, same→eq, select_one, select_one_sound, true, length, IsDescending,
  page_lem_le,
}
use ai_lab.Runs.Rows.{RunRow, Run, create_run, get_run, scan_run, list_for_agent}

-- The row of a run that is read under a tenant belongs to that tenant and has the id asked for.
pub get_run_scoped :
    (tenant_id id : Text) (rows : List RunRow) (run : Run)
    → get_run tenant_id id rows ≡ some run
    → (run.tenant_id ≡ tenant_id) × (run.id ≡ id)
unfolding get_run
get_run_scoped tenant_id id rows run h =
    let p : RunRow → Bool = λ r. same r.id id && same r.tenant_id tenant_id in
    elim (Option-cases (select_one p rows)) [
      | inl e ↦ ground arith
      | inr (r, e) ↦
          ground
            (arith, select_one_sound p rows r e, same→eq r.id id, same→eq r.tenant_id tenant_id)
    ]

-- A run that was just created is found under its tenant, pending and with its inputs, if its id
-- is new to the table.
pub get_run-create_run :
    (id : Text) (now : ℕ) (tenant_id agent_id : Text) (inputs : Option Text) (trace_id : Text)
    (rows : List RunRow)
    → All (λ r. same r.id id ≡ false) rows
    → get_run tenant_id id (create_run id now tenant_id agent_id inputs trace_id rows).0
      ≡ some (create_run id now tenant_id agent_id inputs trace_id rows).1
unfolding get_run create_run
get_run-create_run id now tenant_id agent_id inputs trace_id [] h =
    ground (arith, same_refl id, same_refl tenant_id)
get_run-create_run id now tenant_id agent_id inputs trace_id (r ∷ rows) h =
    ground (arith, h.0, get_run-create_run id now tenant_id agent_id inputs trace_id rows h.1)

-- The list of an agent's runs holds only runs of that tenant and agent, at most 200 of them
-- whatever limit is asked for, the newest first.
pub list_for_agent_page :
    (tenant_id agent_id : Text) (limit : Option ℕ) (rows : List RunRow)
    → let out = list_for_agent tenant_id agent_id limit rows in
      All (λ r. (r.tenant_id ≡ tenant_id) × (r.agent_id ≡ agent_id)) out
      × (length out ≤ 200)
      × IsDescending (λ r. r.created_at) out
unfolding list_for_agent
list_for_agent_page tenant_id agent_id limit rows =
    page_lem_le scan_run (λ r. r.created_at)
      (λ r. (r.tenant_id ≡ tenant_id) × (r.agent_id ≡ agent_id))
      (λ r. same r.tenant_id tenant_id && same r.agent_id agent_id) (belongs tenant_id agent_id) 50
      200 limit rows (omega arith)
  where
    belongs :
        (t a : Text) (r : RunRow)
        → (same r.tenant_id t && same r.agent_id a) ≡ true
        → (r.tenant_id ≡ t) × (r.agent_id ≡ a)
    belongs t a r h = ground (arith, same→eq r.tenant_id t, same→eq r.agent_id a)
