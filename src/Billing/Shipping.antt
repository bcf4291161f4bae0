-- ===== src/Billing/Shipping.antt =====
-- A tick of the shipper passes its checkpoint over no row that has not been shipped
-- (internal/billing/shipper.go).
use ai_lab.Prelude.{
  ℕ, ◌≤◌, ◌<◌, ◌≡◌, subst, refl, sym, ap, ◌⊎◌, inl, inr, Bool, true, false, Option, none, some,
  List, [], ◌∷◌, ◌++◌, map, arith, All, All-map, Text, same, same_refl, same→eq, lookup, All-batch,
  last_key-All, In, batch_covers, All-and,
}
use ai_lab.Usage.{UsageRow}
use ai_lab.Billing.{
  Event, Checkpoint, State, read_batch, event_of, last_row_id, advance, Weather, add_shipped,
  ship_batch, tick,
}
use ai_lab.Billing.Batches.{IsAscending}

abbrev pub Shipped : Event → List Event → Type 0
Shipped e [] = ⊥
Shipped e (x ∷ xs) = (x ≡ e) ⊎ Shipped e xs

-- The destination has accepted the event of a row that its checkpoint has passed.
abbrev pub IsShipped : Text → ℕ → List Event → UsageRow → Type 0
IsShipped dest last shipped u = u.id ≤ last → Shipped (event_of dest u) shipped

-- What holds between the log, the checkpoint of a destination, and what it has accepted.
pub record IsCovered (dest : Text) (s : State) : Type 0 where
  pub ascending : IsAscending s.usage.rows
  pub below_next : All (λ u. u.id < s.usage.next_id) s.usage.rows
  pub behind :
      (c : Checkpoint) → lookup dest s.checkpoints ≡ some c → c.last_event_id < s.usage.next_id
  pub covered :
      (c : Checkpoint)
      → lookup dest s.checkpoints ≡ some c
      → All (IsShipped dest c.last_event_id s.shipped) s.usage.rows

Shipped-before : (e : Event) (xs ys : List Event) → Shipped e xs → Shipped e (xs ++ ys)
Shipped-before e [] ys h = absurd h
Shipped-before e (x ∷ xs) ys (inl q) = inl q
Shipped-before e (x ∷ xs) ys (inr q) = inr (Shipped-before e xs ys q)

Shipped-after : (e : Event) (xs ys : List Event) → Shipped e ys → Shipped e (xs ++ ys)
Shipped-after e [] ys h = h
Shipped-after e (x ∷ xs) ys h = inr (Shipped-after e xs ys h)

In-Shipped :
    (dest : Text) (u : UsageRow) (rs : List UsageRow)
    → In u rs
    → Shipped (event_of dest u) (map (event_of dest) rs)
In-Shipped dest u [] h = absurd h
In-Shipped dest u (r ∷ rs) (inl q) = inl (ap (event_of dest) q)
In-Shipped dest u (r ∷ rs) (inr q) = inr (In-Shipped dest u rs q)

more_shipped :
    {dest : Text} (s : State) (events : List Event)
    → IsCovered dest s
    → IsCovered dest (add_shipped events s)
more_shipped {dest = dest} s events h = record {
  ascending = h.ascending;
  below_next = h.below_next;
  behind = h.behind;
  covered = λ c e.
      All-map (λ u imp le. Shipped-before (event_of dest u) s.shipped events (imp le)) s.usage.rows
        (h.covered c e);
}

-- The checkpoint after an advance.
pub lookup-advance :
    (dest d : Text) (new_id now : ℕ) (cs : List (Text × Checkpoint)) (c : Checkpoint)
    → lookup d (advance dest new_id now cs) ≡ some c
    → (lookup d cs ≡ some c) ⊎ ((same d dest ≡ true) × (c.last_event_id ≡ new_id))
unfolding lookup advance
lookup-advance dest d new_id now [] c h = absurd cc
lookup-advance dest d new_id now ((i, k) ∷ cs) c h =
    ground (arith, lookup-advance dest d new_id now cs c, same→eq i d, same→eq i dest, same_refl d)

-- A tick that goes through.
advanced-IsCovered :
    (d dest : Text) (n now : ℕ) (s : State) (c : Checkpoint) (r : UsageRow) (rs : List UsageRow)
    → lookup dest s.checkpoints ≡ some c
    → read_batch c.last_event_id n s.usage.rows ≡ r ∷ rs
    → IsCovered d s
    → IsCovered d (record (add_shipped (map (event_of dest) (r ∷ rs)) s) {
      checkpoints = advance dest (last_row_id r rs) now s.checkpoints;
    })
unfolding read_batch
advanced-IsCovered d dest n now s c r rs at e h = record {
  ascending = h.ascending;
  below_next = h.below_next;
  behind = λ k q. behind k (lookup-advance dest d (last_row_id r rs) now s.checkpoints k q);
  covered = λ k q. covered k (lookup-advance dest d (last_row_id r rs) now s.checkpoints k q);
}
  where
    events : List Event
    events = map (event_of dest) (r ∷ rs)

    behind :
        (k : Checkpoint)
        → (lookup d s.checkpoints ≡ some k)
          ⊎ ((same d dest ≡ true) × (k.last_event_id ≡ last_row_id r rs))
        → k.last_event_id < s.usage.next_id
    behind k (inl q) = h.behind k q
    behind k (inr (q, eq)) = rw eq (
        last_key-All (λ v. v.id) (λ i. i < s.usage.next_id) r rs
          (subst (All (λ u. u.id < s.usage.next_id)) e (
            All-batch (λ v. v.id) (λ u. u.id < s.usage.next_id) c.last_event_id n s.usage.rows
              h.ascending h.below_next)))

    reach :
        d ≡ dest
        → (u : UsageRow)
        → (u.id ≤ last_row_id r rs → (u.id ≤ c.last_event_id) ⊎ In u (r ∷ rs))
          × IsShipped d c.last_event_id s.shipped u
        → u.id ≤ last_row_id r rs
        → Shipped (event_of d u) (s.shipped ++ events)
    reach same_d u (parted, old) le = elim (parted le) [
      | inl before ↦ Shipped-before (event_of d u) s.shipped events (old before)
      | inr now_in ↦ Shipped-after (event_of d u) s.shipped events (
          subst (λ z. Shipped (event_of z u) events) (sym same_d)
            (In-Shipped dest u (r ∷ rs) now_in))
    ]

    covered :
        (k : Checkpoint)
        → (lookup d s.checkpoints ≡ some k)
          ⊎ ((same d dest ≡ true) × (k.last_event_id ≡ last_row_id r rs))
        → All (IsShipped d k.last_event_id (s.shipped ++ events)) s.usage.rows
    covered k (inl q) = (more_shipped s events h).covered k q
    covered k (inr (q, eq)) =
        let same_d = same→eq d dest q in
        rw eq (
          All-map (reach same_d) s.usage.rows (
            All-and _ _ s.usage.rows
              (batch_covers (λ v. v.id) c.last_event_id n s.usage.rows r rs h.ascending e)
              (h.covered c (rw same_d at))))

ship_batch-IsCovered :
    (d dest : Text) (n : ℕ) (x : Weather) (s : State) (c : Checkpoint) (batch : List UsageRow)
    → lookup dest s.checkpoints ≡ some c
    → read_batch c.last_event_id n s.usage.rows ≡ batch
    → IsCovered d s
    → IsCovered d (ship_batch dest x batch s).0
unfolding ship_batch
ship_batch-IsCovered d dest n x s c [] at e h = h
ship_batch-IsCovered d dest n x s c (r ∷ rs) at e h =
    go x.ship_error x.advance_error x.taken_in_anyway refl refl refl
  where
    go :
        (se ae : Option Text) (b : Bool)
        → x.ship_error ≡ se
        → x.advance_error ≡ ae
        → x.taken_in_anyway ≡ b
        → IsCovered d (ship_batch dest x (r ∷ rs) s).0
    go (some m) ae true p q t =
        rw (ship_batch, p, t) (more_shipped s (map (event_of dest) (r ∷ rs)) h)
    go (some m) ae false p q t = rw (ship_batch, p, t) h
    go none (some m) b p q t =
        rw (ship_batch, p, q) (more_shipped s (map (event_of dest) (r ∷ rs)) h)
    go none none b p q t = rw (ship_batch, p, q) (advanced-IsCovered d dest n x.now s c r rs at e h)

pub tick-IsCovered :
    (d dest : Text) (n : ℕ) (x : Weather) (s : State)
    → IsCovered d s
    → IsCovered d (tick dest n x s).0
unfolding tick
tick-IsCovered d dest n x s h = go (lookup dest s.checkpoints) x.read_error refl refl
  where
    go :
        (o : Option Checkpoint) (re : Option Text)
        → lookup dest s.checkpoints ≡ o
        → x.read_error ≡ re
        → IsCovered d (tick dest n x s).0
    go none re p q = rw (tick, p) h
    go (some c) (some m) p q = rw (tick, p, q) h
    go (some c) none p q =
        rw (tick, p, q)
          (ship_batch-IsCovered d dest n x s c (read_batch c.last_event_id n s.usage.rows) p refl h)
