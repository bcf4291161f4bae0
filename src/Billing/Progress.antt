-- ===== src/Billing/Progress.antt =====
-- The shipper catches up with the log (tick of internal/billing/shipper.go).
use ai_lab.Prelude.{
  ℕ, zero, suc, ◌-◌, ◌≤◌, ◌<◌, ◌≡◌, refl, List, [], ◌∷◌, arith, length, take, drop, All, select,
  ◌*◌, subst, sym, ap, ◌∙◌, true, none, some, ltb→lt, Text, All-select, lookup,
  select-IsAscendingBy,
}
use ai_lab.Usage.{UsageRow}
use ai_lab.Billing.{last_row_id, Checkpoint, State, read_batch, advance, Weather, ship_batch, tick}
use ai_lab.Billing.Batches.{IsAscending, is_pending, read_batch_lem}

-- How many rows a checkpoint has not reached.
abbrev pub backlog : ℕ → List UsageRow → ℕ
backlog last_id rows = length (select (is_pending last_id) rows)

length-drop : {A : Type 0} (n : ℕ) (xs : List A) → length (drop n xs) ≡ length xs - n
length-drop zero xs = omega arith
length-drop (suc n) [] = omega arith
length-drop (suc n) (x ∷ xs) = omega (arith, length-drop n xs)

select_after :
    (last : ℕ) (xs : List UsageRow) → All (λ u. last < u.id) xs → select (is_pending last) xs ≡ xs
select_after last [] h = refl
select_after last (x ∷ xs) h = ground (arith, h.0, select_after last xs h.1)

last_at_least :
    (n : ℕ) (x : UsageRow) (xs : List UsageRow)
    → IsAscending (x ∷ xs)
    → x.id ≤ last_row_id x (take n xs)
last_at_least zero x xs h = omega arith
last_at_least (suc n) x [] h = omega arith
last_at_least (suc n) x (y ∷ ys) h = omega (arith, h.0.0, last_at_least n y ys h.1)

-- What is left after a batch is what followed it.
left :
    (n : ℕ) (x : UsageRow) (xs : List UsageRow)
    → IsAscending (x ∷ xs)
    → select (is_pending (last_row_id x (take n xs))) (x ∷ xs) ≡ drop n xs
left zero x xs h = ground (arith, select_after x.id xs h.0)
left (suc n) x [] h = ground arith
left (suc n) x (y ∷ ys) h = ground (arith, left n y ys h.1, h.0.0, last_at_least n y ys h.1)

select-select :
    (lo hi : ℕ) (xs : List UsageRow)
    → lo ≤ hi
    → select (is_pending hi) (select (is_pending lo) xs) ≡ select (is_pending hi) xs
select-select lo hi [] le = refl
select-select lo hi (x ∷ xs) le = ground (arith, select-select lo hi xs le, le)

-- A tick in which no call fails.
pub record GoesThrough (x : Weather) : Type 0 where
  pub reads : x.read_error ≡ none
  pub ships : x.ship_error ≡ none
  pub advances : x.advance_error ≡ none

lookup-advance_self :
    (dest : Text) (new_id now : ℕ) (cs : List (Text × Checkpoint)) (c : Checkpoint)
    → lookup dest cs ≡ some c
    → c.last_event_id < new_id
    → lookup dest (advance dest new_id now cs)
      ≡ some (record { last_event_id = new_id; last_shipped_at = some now })
unfolding lookup advance
lookup-advance_self dest new_id now [] c h lt = absurd cc
lookup-advance_self dest new_id now ((i, k) ∷ cs) c h lt =
    ground (arith, lookup-advance_self dest new_id now cs c, lt)

-- What follows a batch of n of the pending rows xs.
abbrev Leaves : ℕ → ℕ → List UsageRow → List UsageRow → Type 0
Leaves last n xs [] = Unit
Leaves last n xs (r ∷ rs) =
    (last < last_row_id r rs) × (select (is_pending (last_row_id r rs)) xs ≡ drop n xs)

take-Leaves :
    (last n : ℕ) (xs : List UsageRow)
    → IsAscending xs
    → All (λ u. is_pending last u ≡ true) xs
    → Leaves last n xs (take n xs)
take-Leaves last zero xs a p = tt
take-Leaves last (suc n) [] a p = tt
take-Leaves last (suc n) (x ∷ xs) a p =
    (omega (arith, ltb→lt last x.id p.0, last_at_least n x xs a), left n x xs a)

batch_backlog :
    (last n : ℕ) (rows : List UsageRow) (r : UsageRow) (rs : List UsageRow)
    → IsAscending rows
    → read_batch last n rows ≡ r ∷ rs
    → (last < last_row_id r rs) × (backlog (last_row_id r rs) rows ≡ backlog last rows - n)
batch_backlog last n rows r rs h e =
    let xs = select (is_pending last) rows in
    let (lt, rest) = subst (Leaves last n xs) (sym (read_batch_lem last n rows h) ∙ e) (
      take-Leaves last n xs (select-IsAscendingBy (λ v. v.id) (is_pending last) rows h)
        (All-select (is_pending last) rows)) in
    (
      lt,
      ap length (sym (select-select last (last_row_id r rs) rows (omega (arith, lt))) ∙ rest)
          ∙ length-drop n xs,
    )

no_batch :
    (last n : ℕ) (rows : List UsageRow)
    → IsAscending rows
    → 0 < n
    → read_batch last n rows ≡ []
    → backlog last rows ≡ backlog last rows - n
no_batch last n rows h lt e =
    go n (select (is_pending last) rows) lt (sym (read_batch_lem last n rows h) ∙ e)
  where
    go : (n : ℕ) (xs : List UsageRow) → 0 < n → take n xs ≡ [] → length xs ≡ length xs - n
    go zero xs lt e = absurd (omega (arith, lt))
    go (suc n) [] lt e = omega arith
    go (suc n) (x ∷ xs) lt e = absurd cc

-- A tick that goes through has shipped a full batch, or all there was.
record Shrinks (dest : Text) (n : ℕ) (c : Checkpoint) (s t : State) : Type 0 where
  next : Checkpoint
  found : lookup dest t.checkpoints ≡ some next
  same_rows : t.usage.rows ≡ s.usage.rows
  fewer : backlog next.last_event_id s.usage.rows ≡ backlog c.last_event_id s.usage.rows - n

ship_batch-Shrinks :
    (dest : Text) (n : ℕ) (x : Weather) (s : State) (c : Checkpoint) (batch : List UsageRow)
    → GoesThrough x
    → 0 < n
    → IsAscending s.usage.rows
    → lookup dest s.checkpoints ≡ some c
    → read_batch c.last_event_id n s.usage.rows ≡ batch
    → Shrinks dest n c s (ship_batch dest x batch s).0
unfolding ship_batch
ship_batch-Shrinks dest n x s c [] g lt a at e = record {
  next = c;
  found = at;
  same_rows = refl;
  fewer = no_batch c.last_event_id n s.usage.rows a lt e;
}
ship_batch-Shrinks dest n x s c (r ∷ rs) g lt a at e =
    let (up, fewer) = batch_backlog c.last_event_id n s.usage.rows r rs a e in
    rw (ship_batch, g.ships, g.advances)
      (record {
        next = record { last_event_id = last_row_id r rs; last_shipped_at = some x.now };
        found = lookup-advance_self dest (last_row_id r rs) x.now s.checkpoints c at up;
        same_rows = refl;
        fewer = fewer;
      })

tick-Shrinks :
    (dest : Text) (n : ℕ) (x : Weather) (s : State) (c : Checkpoint)
    → GoesThrough x
    → 0 < n
    → IsAscending s.usage.rows
    → lookup dest s.checkpoints ≡ some c
    → Shrinks dest n c s (tick dest n x s).0
unfolding tick
tick-Shrinks dest n x s c g lt a at =
    let shrinks =
      ship_batch-Shrinks dest n x s c (read_batch c.last_event_id n s.usage.rows) g lt a at refl in
    subst (λ t. Shrinks dest n c s t.0) (sym went) shrinks
  where
    went : tick dest n x s ≡ ship_batch dest x (read_batch c.last_event_id n s.usage.rows) s
    went = rw (tick, at, g.reads) refl

abbrev pub ticks : Text → ℕ → List Weather → State → State
ticks dest n [] s = s
ticks dest n (x ∷ xs) s = ticks dest n xs (tick dest n x s).0

-- The shipper catches up: ticks that go through, with a positive batch size, over a log in
-- ascending order of its ids, enough of them for the destination's backlog and with no insertion
-- between them, leave the log as it was and a checkpoint with nothing behind it.
pub ticks_catch_up :
    (dest : Text) (n : ℕ) (xs : List Weather) (s : State) (c : Checkpoint)
    → All GoesThrough xs
    → 0 < n
    → IsAscending s.usage.rows
    → lookup dest s.checkpoints ≡ some c
    → backlog c.last_event_id s.usage.rows ≤ length xs * n
    → (k : Checkpoint) × (lookup dest (ticks dest n xs s).checkpoints ≡ some k)
      × ((ticks dest n xs s).usage.rows ≡ s.usage.rows)
      × (backlog k.last_event_id s.usage.rows ≡ 0)
ticks_catch_up dest n [] s c g lt a at le = (c, at, refl, omega (arith, le))
ticks_catch_up dest n (x ∷ xs) s c g lt a at le =
    let t = tick-Shrinks dest n x s c g.0 lt a at in
    let s' = (tick dest n x s).0 in
    let (k, found, same_rows, nothing) =
      ticks_catch_up dest n xs s' t.next g.1 lt (subst IsAscending (sym t.same_rows) a) t.found (
        subst (λ rows. backlog t.next.last_event_id rows ≤ length xs * n) (sym t.same_rows)
          (step_le t.fewer)) in
    (
      k,
      found,
      same_rows ∙ t.same_rows,
      subst (λ rows. backlog k.last_event_id rows ≡ 0) t.same_rows nothing,
    )
  where
    step_le : {b : ℕ} → b ≡ backlog c.last_event_id s.usage.rows - n → b ≤ length xs * n
    step_le e = omega (arith, e, le)
