-- ===== src/Schedule/Scheduler.antt =====
-- The scheduler's pass over the rows (refresh of cmd/triggers/main.go).
pub mod Sync
pub mod Sweep
use ai_lab.Prelude.{
  Text, ℕ, Bool, true, false, Option, none, some, List, [], ◌∷◌, ◌++◌, if◌then◌else◌, take, same,
  hex_encode, any, lookup, insert, delete,
}
use ai_lab.Schedule.{Trigger}

-- The cron library: what AddFunc makes of a row whose expression it takes, and Remove. The function
-- that is added fires the row.
pub record Cron : Type 1 where
  pub C : Type 0
  pub add_func : Trigger → C → Option (C × ℕ)
  pub remove : ℕ → C → C

pub record Registered : Type 0 where
  pub entry_id : ℕ
  pub checksum : Text

module _ (k : Cron) (sha256 : Text → Text) where
  -- checksum: the first eight bytes, in hex
  abbrev pub checksum : Trigger → Text
  checksum t = hex_encode (take 8 (sha256 (t.agent_id ++ b'|' ∷ t.cron_expr)))

  pub record Scheduler : Type 0 where
    pub cron : k.C
    pub registered : List (Text × Registered)

  -- AddFunc and what follows it
  abbrev pub added : Trigger → Option (k.C × ℕ) → Scheduler → Scheduler
  added t none s = s
  added t (some (c, id)) s = record {
    cron = c;
    registered = insert t.id (record { entry_id = id; checksum = checksum t }) s.registered;
  }

  abbrev pub add_row : Trigger → Scheduler → Scheduler
  add_row t s = added t (k.add_func t s.cron) s

  -- One row, given the entry that is registered under its id.
  abbrev pub refresh_row : Trigger → Option Registered → Scheduler → Scheduler
  refresh_row t none s = add_row t s
  refresh_row t (some cur) s =
      if same cur.checksum (checksum t)
      then s
      else add_row t (record s { cron = k.remove cur.entry_id s.cron })

  abbrev pub refresh_rows : List Trigger → Scheduler → Scheduler
  refresh_rows [] s = s
  refresh_rows (t ∷ ts) s = refresh_rows ts (refresh_row t (lookup t.id s.registered) s)

  -- The second loop, over the ids that were registered when it began.
  abbrev pub sweep : List Text → List (Text × Registered) → Scheduler → Scheduler
  sweep seen [] s = s
  sweep seen ((id, cur) ∷ rest) s = sweep seen rest (
      if any (same id) seen
      then s
      else record { cron = k.remove cur.entry_id s.cron; registered = delete id s.registered })

  abbrev pub ids_of : List Trigger → List Text
  ids_of [] = []
  ids_of (t ∷ ts) = t.id ∷ ids_of ts

  abbrev pub refreshed : List Trigger → Scheduler → Scheduler
  refreshed rows s = let s' = refresh_rows rows s in sweep (ids_of rows) s'.registered s'

  -- scheduler.refresh, given what ListAllCron returns, or none for its error.
  unfoldable pub refresh : Option (List Trigger) → Scheduler → Scheduler × Bool
  refresh none s = (s, false)
  refresh (some rows) s = (refreshed rows s, true)
