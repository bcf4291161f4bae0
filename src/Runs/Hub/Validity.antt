-- ===== src/Runs/Hub/Validity.antt =====
-- The hub's subscriptions have distinct ids that were given out, and bounded buffers.
use ai_lab.Prelude.{
  ℕ, ◌≤◌, ◌<◌, ◌≡◌, ◌≢◌, Bool, Option, List, [], ◌∷◌, map, arith, length, drop, length-append, All,
  All-map, Text, ◌+◌, inl, inr, true, none, some, ◌++◌, ◌==◌, Bool-cases, All-append, select,
  All-select, false,
}
use ai_lab.Runs.Hub.{
  RunEvent, Subscription, Hub, capacity, subscribe, cancel, offer, deliver_local, broadcast,
  deliver_from_bus, pop, receive, run_events_prefix, new_hub, has_id, lacks_id, trim_prefix,
  RawCall, publish_raw, broadcast_over, deliver_decoded,
}

abbrev pub Fits : ℕ → Subscription → Type 0
Fits n s = (s.id < n) × (length s.buffer ≤ capacity)

abbrev pub AreDistinct : List Subscription → Type 0
AreDistinct [] = Unit
AreDistinct (s ∷ ss) = All (λ t. t.id ≢ s.id) ss × AreDistinct ss

pub record IsValid (h : Hub) : Type 0 where
  pub fits : All (Fits h.next) h.subs
  pub distinct : AreDistinct h.subs
  pub closed_gone : All (λ c. All (λ s. s.id ≢ c.id) h.subs × (c.id < h.next)) h.closed

-- What the processes around the hub may do to it.
pub data Step : Type 0 where
  joined : Text → Step
  left : ℕ → Step
  sent : RawCall → Text → RunEvent → Step
  arrived : (Text → Option RunEvent) → Text → Text → Step
  read : ℕ → Step

abbrev pub step : Step → Hub → Hub
step (joined run_id) h = (subscribe run_id h).0
step (left id) h = cancel id h
step (sent c run_id ev) h = broadcast c run_id ev h
step (arrived unmarshal subject payload) h = deliver_from_bus unmarshal subject payload h
step (read id) h = (receive id h).0

abbrev pub steps : List Step → Hub → Hub
steps [] h = h
steps (s ∷ ss) h = steps ss (step s h)

-- An update of the subscriptions in place that keeps ids.
module _ (f : Subscription → Subscription) (keeps : (s : Subscription) → (f s).id ≡ s.id) where
  distinct_from-map :
      (k : ℕ) (ss : List Subscription) → All (λ s. s.id ≢ k) ss → All (λ s. s.id ≢ k) (map f ss)
  distinct_from-map k [] h = tt
  distinct_from-map k (s ∷ ss) h = (rw (keeps s) h.0, distinct_from-map k ss h.1)

  AreDistinct-map : (ss : List Subscription) → AreDistinct ss → AreDistinct (map f ss)
  AreDistinct-map [] h = tt
  AreDistinct-map (s ∷ ss) h =
      (rw (keeps s) (distinct_from-map s.id ss h.0), AreDistinct-map ss h.1)

  closed_gone-map :
      (n : ℕ) (ss cs : List Subscription)
      → All (λ c. All (λ s. s.id ≢ c.id) ss × (c.id < n)) cs
      → All (λ c. All (λ s. s.id ≢ c.id) (map f ss) × (c.id < n)) cs
  closed_gone-map n ss cs h =
      All-map
        (λ c (k : All (λ s. s.id ≢ c.id) ss × (c.id < n)). (distinct_from-map c.id ss k.0, k.1)) cs
        h

Fits-offer :
    (n : ℕ) (run_id : Text) (ev : RunEvent) (s : Subscription)
    → Fits n s
    → Fits n (offer run_id ev s)
Fits-offer n run_id ev s h = ground (arith, length-append s.buffer (ev ∷ []))

Fits-pop : (n id : ℕ) (s : Subscription) → Fits n s → Fits n (pop id s)
Fits-pop n id s h = ground (arith, length-drop_one s.buffer)
  where
    length-drop_one : (es : List RunEvent) → length (drop 1 es) ≤ length es
    length-drop_one [] = omega arith
    length-drop_one (e ∷ es) = omega arith

All-over-map :
    (P Q : Subscription → Type 0) (f : Subscription → Subscription)
    → ((s : Subscription) → P s → Q (f s))
    → (ss : List Subscription) → All P ss
    → All Q (map f ss)
All-over-map P Q f k [] h = tt
All-over-map P Q f k (s ∷ ss) h = (k s h.0, All-over-map P Q f k ss h.1)

id-offer : (run_id : Text) (ev : RunEvent) (s : Subscription) → (offer run_id ev s).id ≡ s.id
id-offer run_id ev s = ground arith

id-pop : (id : ℕ) (s : Subscription) → (pop id s).id ≡ s.id
id-pop id s = ground arith

deliver_local-IsValid :
    (run_id : Text) (ev : RunEvent) (h : Hub) → IsValid h → IsValid (deliver_local run_id ev h)
unfolding deliver_local
deliver_local-IsValid run_id ev h v = record {
  fits =
      All-over-map (Fits h.next) (Fits h.next) (offer run_id ev) (Fits-offer h.next run_id ev)
        h.subs v.fits;
  distinct = AreDistinct-map (offer run_id ev) (id-offer run_id ev) h.subs v.distinct;
  closed_gone =
      closed_gone-map (offer run_id ev) (id-offer run_id ev) h.next h.subs h.closed v.closed_gone;
}

receive-IsValid : (id : ℕ) (h : Hub) → IsValid h → IsValid (receive id h).0
unfolding receive
receive-IsValid id h v = record {
  fits = All-over-map (Fits h.next) (Fits h.next) (pop id) (Fits-pop h.next id) h.subs v.fits;
  distinct = AreDistinct-map (pop id) (id-pop id) h.subs v.distinct;
  closed_gone = closed_gone-map (pop id) (id-pop id) h.next h.subs h.closed v.closed_gone;
}

subscribe-IsValid : (run_id : Text) (h : Hub) → IsValid h → IsValid (subscribe run_id h).0
unfolding subscribe
subscribe-IsValid run_id h v =
    let new : Subscription = record { id = h.next; run_id = run_id; buffer = [] } in
    record {
      fits =
          All-append (Fits (h.next + 1)) h.subs (new ∷ [])
            (All-map (λ s (k : Fits h.next s). omega arith) h.subs v.fits) (omega arith, tt);
      distinct = distinct_append new h.subs v.distinct (fresh h.subs v.fits);
      closed_gone =
          All-map
            (λ c (k : All (λ s. s.id ≢ c.id) h.subs × (c.id < h.next)).
              (All-append (λ s. s.id ≢ c.id) h.subs (new ∷ []) k.0 (omega arith, tt), omega arith))
            h.closed v.closed_gone;
    }
  where
    distinct_append :
        (new : Subscription) (ss : List Subscription)
        → AreDistinct ss
        → All (λ s. new.id ≢ s.id) ss
        → AreDistinct (ss ++ new ∷ [])
    distinct_append new [] d f = (tt, tt)
    distinct_append new (s ∷ ss) d f =
        (All-append (λ t. t.id ≢ s.id) ss (new ∷ []) d.0 (f.0, tt), distinct_append new ss d.1 f.1)

    fresh : (ss : List Subscription) → All (Fits h.next) ss → All (λ s. h.next ≢ s.id) ss
    fresh ss f = All-map (λ s (k : Fits h.next s). omega arith) ss f

All-of-select :
    (P : Subscription → Type 0) (p : Subscription → Bool) (ss : List Subscription)
    → All P ss
    → All P (select p ss)
All-of-select P p [] h = tt
All-of-select P p (s ∷ ss) h = ground (arith, All-of-select P p ss h.1)

distinct-select :
    (p : Subscription → Bool) (ss : List Subscription) → AreDistinct ss → AreDistinct (select p ss)
distinct-select p [] d = tt
distinct-select p (s ∷ ss) d = elim (Bool-cases (p s)) [
  | inl e ↦ rw e (All-of-select (λ t. t.id ≢ s.id) p ss d.0, distinct-select p ss d.1)
  | inr e ↦ rw e (distinct-select p ss d.1)
]

cancel-IsValid : (id : ℕ) (h : Hub) → IsValid h → IsValid (cancel id h)
unfolding cancel
cancel-IsValid id h v = record {
  fits = All-of-select (Fits h.next) (lacks_id id) h.subs v.fits;
  distinct = distinct-select (lacks_id id) h.subs v.distinct;
  closed_gone =
      All-append Gone h.closed (select (has_id id) h.subs)
        (All-map
          (λ c (k : All (λ s. s.id ≢ c.id) h.subs × (c.id < h.next)).
            (All-of-select (λ s. s.id ≢ c.id) (lacks_id id) h.subs k.0, k.1))
          h.closed v.closed_gone)
        (removed h.subs v.fits);
}
  where
    Gone : Subscription → Type 0
    Gone c = All (λ s. s.id ≢ c.id) (select (lacks_id id) h.subs) × (c.id < h.next)

    others :
        (k : ℕ) → k ≡ id → (ss : List Subscription) → All (λ s. s.id ≢ k) (select (lacks_id id) ss)
    others k e ss =
        All-map (λ s (p : lacks_id id s ≡ true). ground arith) (select (lacks_id id) ss)
          (All-select (lacks_id id) ss)

    removed : (ss : List Subscription) → All (Fits h.next) ss → All Gone (select (has_id id) ss)
    removed [] f = tt
    removed (s ∷ ss) f = elim (Bool-cases (s.id == id)) [
      | inl e ↦ rw e ((others s.id (ground arith) h.subs, f.0.0), removed ss f.1)
      | inr e ↦ rw e (removed ss f.1)
    ]

deliver_decoded-IsValid :
    (subject : Text) (o : Option RunEvent) (h : Hub)
    → IsValid h
    → IsValid (deliver_decoded subject o h)
deliver_decoded-IsValid subject none h v = v
deliver_decoded-IsValid subject (some ev) h v =
    deliver_local-IsValid (trim_prefix run_events_prefix subject) ev h v

publish_raw-IsValid :
    (raw_ok : Bool) (subject : Text) (o : Option Text) (h : Hub)
    → IsValid h
    → IsValid (publish_raw raw_ok subject o h)
publish_raw-IsValid raw_ok subject none h v = v
publish_raw-IsValid false subject (some payload) h v = v
publish_raw-IsValid true subject (some payload) h v = record {
  fits = v.fits;
  distinct = v.distinct;
  closed_gone = v.closed_gone;
}

broadcast_over-IsValid :
    (has_bus : Bool) (c : RawCall) (run_id : Text) (ev : RunEvent) (h : Hub)
    → IsValid h
    → IsValid (broadcast_over has_bus c run_id ev h)
broadcast_over-IsValid false c run_id ev h v = deliver_local-IsValid run_id ev h v
broadcast_over-IsValid true c run_id ev h v =
    publish_raw-IsValid c.raw_ok (run_events_prefix ++ run_id) (c.marshal ev) h v

step-IsValid : (s : Step) (h : Hub) → IsValid h → IsValid (step s h)
unfolding broadcast deliver_from_bus
step-IsValid (joined run_id) h v = subscribe-IsValid run_id h v
step-IsValid (left id) h v = cancel-IsValid id h v
step-IsValid (sent c run_id ev) h v = broadcast_over-IsValid h.has_bus c run_id ev h v
step-IsValid (arrived unmarshal subject payload) h v =
    deliver_decoded-IsValid subject (unmarshal payload) h v
step-IsValid (read id) h v = receive-IsValid id h v

-- From a valid hub, such as a new one, and in every order of subscribing, cancelling,
-- broadcasting, bus deliveries and reads, the ids of the live subscriptions stay distinct and
-- below the counter, no buffer passes its 32 places, and no closed channel is among the live
-- ones, so that nothing is sent on it or closes it again.
pub steps-IsValid : (ss : List Step) (h : Hub) → IsValid h → IsValid (steps ss h)
steps-IsValid [] h v = v
steps-IsValid (s ∷ ss) h v = steps-IsValid ss (step s h) (step-IsValid s h v)

-- A hub starts with no subscription.
pub new_hub-IsValid : (has_bus : Bool) → IsValid (new_hub has_bus)
new_hub-IsValid has_bus = record { fits = tt; distinct = tt; closed_gone = tt }
