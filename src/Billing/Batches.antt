-- ===== src/Billing/Batches.antt =====
-- The batch that a tick reads (the SELECT of tick, internal/billing/shipper.go), over a log whose
-- ids come from a sequence.
use ai_lab.Prelude.{ℕ, ◌≡◌, Bool, List, ltb, take, select, IsAscendingBy, batch_lem}
use ai_lab.Usage.{UsageRow}
use ai_lab.Billing.{read_batch}

-- The order of the primary key is the order of insertion.
abbrev pub IsAscending : List UsageRow → Type 0
IsAscending = IsAscendingBy (λ r. r.id)

-- The rows that the destination's checkpoint has not reached.
abbrev pub is_pending : ℕ → UsageRow → Bool
is_pending last_id r = ltb last_id r.id

-- Over an ascending log the batch is the first pending rows.
pub read_batch_lem :
    (last_id n : ℕ) (rows : List UsageRow)
    → IsAscending rows
    → read_batch last_id n rows ≡ take n (select (is_pending last_id) rows)
unfolding read_batch
read_batch_lem last_id n rows h = batch_lem (λ r. r.id) last_id n rows h
