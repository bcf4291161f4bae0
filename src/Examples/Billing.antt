-- ===== src/Examples/Billing.antt =====
-- A concrete metering log for internal/billing and cmd/janitor.
use ai_lab.Prelude.{
  ap, ◌≡◌, refl, false, none, some, List, [], ◌∷◌, arith, All, txt, same, select, lookup, In,
}
use ai_lab.Usage.{run_start, run_end, count, UsageTable, run_row, draw_id, commit_run}
use ai_lab.Billing.{Checkpoint, State, Weather, gc_usage_events, tick}
use ai_lab.Billing.Batches.{IsAscending, is_pending}
use ai_lab.Billing.Coverage.{Step, draws, commits, prunes, step, steps, prunes_only_shipped}
use ai_lab.Billing.Late.{Lacks, IsPassed, late_row_unshipped}
use ai_lab.Billing.Progress.{backlog, ticks, ticks_catch_up}

abbrev log_1 : UsageTable
log_1 = record {
  rows =
      run_row (txt "t1") (txt "a1") (txt "r1") run_start (count 1) 7 1
      ∷ run_row (txt "t1") (txt "a1") (txt "r1") run_end (count 1) 8 2
      ∷ [];
  next_id = 3;
}

abbrev pub billing_1 : State
billing_1 = record {
  usage = log_1;
  checkpoints = (txt "orb", record { last_event_id = 0; last_shipped_at = none }) ∷ [];
  shipped = [];
}

abbrev fair : Weather
fair = record {
  read_error = none;
  ship_error = none;
  taken_in_anyway = false;
  advance_error = none;
  now = 20;
}

log_1-IsAscending : IsAscending log_1.rows
log_1-IsAscending = ((omega arith, tt), (tt, tt))

-- Two insertions draw ids 3 and 4 and commit in the other order, with a tick and a pruning between.
abbrev billing_steps : List Step
billing_steps =
    Step.ticks (txt "orb") 1 fair
    ∷ draws
    ∷ draws
    ∷ commits (txt "t1") (txt "a1") (txt "r3") run_start (count 1) 9 4
    ∷ Step.ticks (txt "orb") 1 fair
    ∷ commits (txt "t1") (txt "a1") (txt "r2") run_start (count 1) 9 3
    ∷ prunes 100 10
    ∷ Step.ticks (txt "orb") 5 fair
    ∷ []

-- The second of two ids commits alone and is shipped, and then the first commits.
abbrev passed_1 : State
passed_1 =
    steps
      (draws
        ∷ draws
        ∷ commits (txt "t1") (txt "a1") (txt "r3") run_start (count 1) 9 4
        ∷ Step.ticks (txt "orb") 5 fair
        ∷ [])
      billing_1

passed_1-IsPassed : IsPassed (txt "orb") 3 passed_1
unfolding lookup same tick step draw_id commit_run
passed_1-IsPassed = (
  (record { last_event_id = 4; last_shipped_at = some 20 }, refl, omega arith),
  (
    λ e. omega (arith, ap (λ z. z.1) e),
    (λ e. omega (arith, ap (λ z. z.1) e), (λ e. omega (arith, ap (λ z. z.1) e), tt)),
  ),
)

late_row_unshipped_example :
    Lacks
      (txt "orb")
      3
      (steps
        (commits (txt "t1") (txt "a1") (txt "r2") run_start (count 1) 9 3
          ∷ Step.ticks (txt "orb") 5 fair
          ∷ [])
        passed_1).shipped
late_row_unshipped_example =
    late_row_unshipped (txt "orb") 3
      (commits (txt "t1") (txt "a1") (txt "r2") run_start (count 1) 9 3
        ∷ Step.ticks (txt "orb") 5 fair
        ∷ [])
      passed_1 passed_1-IsPassed

prunes_only_shipped_example :
    All (λ u. In u (gc_usage_events 100 10 billing_1).usage.rows) (select (is_pending 0) log_1.rows)
unfolding lookup same
prunes_only_shipped_example =
    prunes_only_shipped 100 10 (txt "orb") (record { last_event_id = 0; last_shipped_at = none })
      billing_1 refl

ticks_catch_up_example :
    (k : Checkpoint) × (lookup
        (txt "orb")
        (ticks (txt "orb") 1 (fair ∷ fair ∷ []) billing_1).checkpoints
      ≡ some k)
    × ((ticks (txt "orb") 1 (fair ∷ fair ∷ []) billing_1).usage.rows ≡ log_1.rows)
    × (backlog k.last_event_id log_1.rows ≡ 0)
unfolding lookup same
ticks_catch_up_example =
    ticks_catch_up (txt "orb") 1 (fair ∷ fair ∷ []) billing_1
      (record { last_event_id = 0; last_shipped_at = none })
      (
        record { reads = refl; ships = refl; advances = refl },
        (record { reads = refl; ships = refl; advances = refl }, tt),
      )
      (omega arith) log_1-IsAscending refl (omega arith)
