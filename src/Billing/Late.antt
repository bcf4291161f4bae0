-- ===== src/Billing/Late.antt =====
-- A row that commits after a checkpoint has passed its id (internal/billing/shipper.go and
-- internal/usage/repo.go).
use ai_lab.Prelude.{
  ℕ, ◌≤◌, ◌<◌, ◌≡◌, ◌≢◌, refl, Bool, true, false, Option, none, some, List, [], ◌∷◌, ◌++◌, map,
  arith, ◌&&◌, ltb, All, All-append, All-map, Text, lookup, batch_past, ap, ◌∙◌, inl, inr,
  Bool-cases, same,
}
use ai_lab.Usage.{UsageRow}
use ai_lab.Billing.{
  Event, Checkpoint, State, read_batch, event_of, last_row_id, advance, Weather, ship_batch, tick,
  gc_usage_events,
}
use ai_lab.Billing.Coverage.{Step, ticks, draws, commits, prunes, step, steps}

abbrev pub Lacks : Text → ℕ → List Event → Type 0
Lacks d id = All (λ e. e.idempotency_key ≢ (d, id))

-- The checkpoint of a destination has passed an id, and no event of it has been shipped there.
abbrev pub IsPassed : Text → ℕ → State → Type 0
IsPassed d id s =
    ((c : Checkpoint) × (lookup d s.checkpoints ≡ some c) × (id ≤ c.last_event_id))
    × Lacks d id s.shipped

advance_keeps :
    (dest d : Text) (new_id now : ℕ) (cs : List (Text × Checkpoint)) (c : Checkpoint)
    → lookup d cs ≡ some c
    → (c' : Checkpoint) × (lookup d (advance dest new_id now cs) ≡ some c')
      × (c.last_event_id ≤ c'.last_event_id)
unfolding lookup advance
advance_keeps dest d new_id now [] c h = absurd cc
advance_keeps dest d new_id now ((i, k) ∷ cs) c h =
    elim (Bool-cases (same i dest && ltb k.last_event_id new_id)) [
      | inl e ↦ elim (Bool-cases (same i d)) [
        | inl q ↦
            rw (e, q)
              (
                record { last_event_id = new_id; last_shipped_at = some now },
                refl,
                ground (arith, e, q, h),
              )
        | inr n ↦ rw (e, n) (advance_keeps dest d new_id now cs c (ground (arith, h, n)))
      ]
      | inr m ↦ elim (Bool-cases (same i d)) [
        | inl q ↦ rw (m, q) (k, refl, ground (arith, q, h))
        | inr n ↦ rw (m, n) (advance_keeps dest d new_id now cs c (ground (arith, h, n)))
      ]
    ]

lacking :
    (d dest : Text) (id : ℕ) (rows : List UsageRow)
    → (dest ≡ d → All (λ u. id < u.id) rows)
    → Lacks d id (map (event_of dest) rows)
unfolding event_of
lacking d dest id [] h = tt
lacking d dest id (u ∷ rows) h = (
  λ e. absurd (omega (arith, (h (ap (λ z. z.0) e)).0, ap (λ z. z.1) e)),
  lacking d dest id rows (λ q. (h q).1),
)

more_lacking :
    (d dest : Text) (id : ℕ) (rows : List UsageRow) (s : State)
    → (dest ≡ d → All (λ u. id < u.id) rows)
    → Lacks d id s.shipped
    → Lacks d id (s.shipped ++ map (event_of dest) rows)
more_lacking d dest id rows s past h =
    All-append (λ e. e.idempotency_key ≢ (d, id)) s.shipped (map (event_of dest) rows) h
      (lacking d dest id rows past)

ship_batch-IsPassed :
    (d dest : Text) (id : ℕ) (x : Weather) (batch : List UsageRow) (s : State)
    → (dest ≡ d → All (λ u. id < u.id) batch)
    → IsPassed d id s
    → IsPassed d id (ship_batch dest x batch s).0
unfolding ship_batch
ship_batch-IsPassed d dest id x [] s past h = h
ship_batch-IsPassed d dest id x (r ∷ rs) s past ((c, at, le), lacks) =
    go x.ship_error x.advance_error x.taken_in_anyway refl refl refl
  where
    go :
        (se ae : Option Text) (b : Bool)
        → x.ship_error ≡ se
        → x.advance_error ≡ ae
        → x.taken_in_anyway ≡ b
        → IsPassed d id (ship_batch dest x (r ∷ rs) s).0
    go (some m) ae true p q t =
        rw (ship_batch, p, t) ((c, at, le), more_lacking d dest id (r ∷ rs) s past lacks)
    go (some m) ae false p q t = rw (ship_batch, p, t) ((c, at, le), lacks)
    go none (some m) b p q t =
        rw (ship_batch, p, q) ((c, at, le), more_lacking d dest id (r ∷ rs) s past lacks)
    go none none b p q t =
        let (c', at', le') = advance_keeps dest d (last_row_id r rs) x.now s.checkpoints c at in
        rw (ship_batch, p, q)
          ((c', at', omega (arith, le, le')), more_lacking d dest id (r ∷ rs) s past lacks)

tick-IsPassed :
    (d dest : Text) (id n : ℕ) (x : Weather) (s : State)
    → IsPassed d id s
    → IsPassed d id (tick dest n x s).0
unfolding tick read_batch
tick-IsPassed d dest id n x s h = go (lookup dest s.checkpoints) x.read_error refl refl
  where
    same_one : {o : Option Checkpoint} {c c0 : Checkpoint} → o ≡ some c0 → o ≡ some c → c0 ≡ c
    same_one p q = cc

    past :
        (c : Checkpoint)
        → lookup dest s.checkpoints ≡ some c
        → dest ≡ d
        → All (λ u. id < u.id) (read_batch c.last_event_id n s.usage.rows)
    past c e own =
        let (c0, at, le) = h.0 in
        let one : c0 ≡ c = same_one (ap (λ z. lookup z s.checkpoints) own ∙ at) e in
        All-map (λ u lt. omega (arith, le, lt, ap (λ z. z.last_event_id) one))
          (read_batch c.last_event_id n s.usage.rows)
          (batch_past (λ r. r.id) c.last_event_id n s.usage.rows)

    go :
        (o : Option Checkpoint) (re : Option Text)
        → lookup dest s.checkpoints ≡ o
        → x.read_error ≡ re
        → IsPassed d id (tick dest n x s).0
    go none re p q = rw (tick, p) h
    go (some c) (some m) p q = rw (tick, p, q) h
    go (some c) none p q =
        rw (tick, p, q)
          (ship_batch-IsPassed d dest id x (read_batch c.last_event_id n s.usage.rows) s (past c p)
            h)

step-IsPassed :
    (d : Text) (id : ℕ) (a : Step) (s : State) → IsPassed d id s → IsPassed d id (step a s)
unfolding step gc_usage_events
step-IsPassed d id (ticks dest n x) s h = tick-IsPassed d dest id n x s h
step-IsPassed d id draws s h = h
step-IsPassed d id (commits tenant agent run kind qty at row_id) s h = h
step-IsPassed d id (prunes now ttl) s h = h

-- Once a destination's checkpoint has passed an id whose event has not been shipped there, it never
-- is: over any interleaving of insertions, prunings and ticks, the row of that id among the rows that
-- commit, and however the calls go, nothing with the event's idempotency key is shipped.
pub late_row_unshipped :
    (d : Text) (id : ℕ) (todo : List Step) (s : State)
    → IsPassed d id s
    → Lacks d id (steps todo s).shipped
late_row_unshipped d id [] s h = h.1
late_row_unshipped d id (a ∷ rest) s h =
    late_row_unshipped d id rest (step a s) (step-IsPassed d id a s h)
