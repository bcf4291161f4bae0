-- ===== src/Billing/Coverage.antt =====
-- At-least-once shipping (internal/billing/shipper.go), with the writers of the log: RecordRun of
-- internal/usage/repo.go and gcUsageEvents of cmd/janitor/main.go.
use ai_lab.Prelude.{
  In, ◌≢◌, ℕ, ◌-◌, ◌≤◌, ◌<◌, ◌≡◌, subst, refl, inl, inr, true, false, ◌&&◌, some, List, [], ◌∷◌,
  arith, ltb, leb, ltb→lt, Bool-cases, All, All-map, Text, select, All-select_if, lookup,
}
use ai_lab.Usage.{Kind, Quantity, UsageRow, draw_id, commit_run}
use ai_lab.Billing.{Checkpoint, State, Weather, tick, least, prune, gc_usage_events}
use ai_lab.Billing.Batches.{is_pending}

-- What changes the tables: a pass of the shipper for a destination, the two moments of an insertion by
-- the status consumer, between which anything else may happen, and a pass of the janitor.
pub data Step : Type 0 where
  ticks : Text → ℕ → Weather → Step
  draws : Step
  commits : Text → Text → Text → Kind → Quantity → ℕ → ℕ → Step
  prunes : ℕ → ℕ → Step

unfoldable pub step : Step → State → State
step (ticks dest n x) s = (tick dest n x s).0
step draws s = record s { usage = draw_id s.usage }
step (commits tenant agent run kind qty at id) s = record s {
  usage = commit_run tenant agent run kind qty at id s.usage;
}
step (prunes now ttl) s = gc_usage_events now ttl s

abbrev pub steps : List Step → State → State
steps [] s = s
steps (a ∷ rest) s = steps rest (step a s)

-- A row commits in time for a destination: its id was drawn and is not in use, and the checkpoint has
-- not passed it.
abbrev pub InTime : Text → Step → State → Type 0
InTime d (ticks dest n x) s = Unit
InTime d draws s = Unit
InTime d (commits tenant agent run kind qty at id) s =
    (id < s.usage.next_id)
    × All (λ u. u.id ≢ id) s.usage.rows
    × ((c : Checkpoint) → lookup d s.checkpoints ≡ some c → c.last_event_id < id)
InTime d (prunes now ttl) s = Unit

abbrev pub AllInTime : Text → List Step → State → Type 0
AllInTime d [] s = Unit
AllInTime d (a ∷ rest) s = InTime d a s × AllInTime d rest (step a s)

least_below :
    (d : Text) (cs : List (Text × Checkpoint)) (c : Checkpoint)
    → lookup d cs ≡ some c
    → least cs ≤ c.last_event_id
unfolding lookup
least_below d [] c h = absurd cc
least_below d ((i, k) ∷ []) c h = ground arith
least_below d ((i, k) ∷ e ∷ cs) c h = ground (arith, least_below d (e ∷ cs) c)

kept :
    (d : Text) (cutoff last k : ℕ) (xs : List UsageRow)
    → last ≤ k
    → All (λ u. k < u.id → In u (prune cutoff last xs)) xs
kept d cutoff last k [] le = tt
kept d cutoff last k (x ∷ xs) le = elim (Bool-cases (ltb x.recorded_at cutoff && leb x.id last)) [
  | inl e ↦ (
    λ lt. absurd (ground (arith, e, lt, le)),
    subst (λ ys. All (λ u. k < u.id → In u ys) xs) (dropped e) (kept d cutoff last k xs le),
  )
  | inr n ↦
      subst (λ ys. All (λ u. k < u.id → In u ys) (x ∷ xs)) (stays n)
        (λ lt. inl refl, All-map (λ u imp lt. inr (imp lt)) xs (kept d cutoff last k xs le))
]
  where
    dropped :
        (ltb x.recorded_at cutoff && leb x.id last) ≡ true
        → prune cutoff last xs ≡ prune cutoff last (x ∷ xs)
    dropped e = rw e refl

    stays :
        (ltb x.recorded_at cutoff && leb x.id last) ≡ false
        → x ∷ prune cutoff last xs ≡ prune cutoff last (x ∷ xs)
    stays e = rw e refl

-- The janitor's pruning keeps every row that some destination's checkpoint has not passed,
-- however old the row is.
pub prunes_only_shipped :
    (now ttl : ℕ) (d : Text) (c : Checkpoint) (s : State)
    → lookup d s.checkpoints ≡ some c
    → All
        (λ u. In u (gc_usage_events now ttl s).usage.rows)
        (select (is_pending c.last_event_id) s.usage.rows)
unfolding gc_usage_events
prunes_only_shipped now ttl d c s h =
    All-select_if (λ u. In u (prune (now - ttl) (least s.checkpoints) s.usage.rows))
      (is_pending c.last_event_id) s.usage.rows
      (All-map (λ u imp q. imp (ltb→lt c.last_event_id u.id q)) s.usage.rows
        (kept d (now - ttl) (least s.checkpoints) c.last_event_id s.usage.rows
          (least_below d s.checkpoints c h)))
