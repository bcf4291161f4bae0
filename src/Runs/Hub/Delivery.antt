-- ===== src/Runs/Hub/Delivery.antt =====
-- Who gets what from the hub.
use ai_lab.Prelude.{
  ℕ, ◌≡◌, refl, ap, inl, inr, Bool, true, false, ◌&&◌, Option, none, some, List, [], ◌∷◌, ◌++◌, map,
  append-nil, arith, ltb, ◌==◌, if◌then◌else◌, ◌∙◌, Bool-cases, length, Text, same, select,
}
use ai_lab.Runs.Hub.{
  RunEvent, Subscription, Hub, capacity, run_events_prefix, has_id, lacks_id, cancel, offer,
  deliver_local, trim_prefix, broadcast, deliver_from_bus, RawCall, publish_raw, broadcast_over,
  deliver_decoded,
}

-- The events that wait for the reader of a subscription; `none` if it is not live.
abbrev pub waiting : ℕ → List Subscription → Option (List RunEvent)
waiting id [] = none
waiting id (s ∷ ss) = let rest = waiting id ss in if s.id == id then some s.buffer else rest

abbrev pub listens_to : ℕ → Text → List Subscription → Bool
listens_to id run_id [] = false
listens_to id run_id (s ∷ ss) =
    let rest = listens_to id run_id ss in if s.id == id then same s.run_id run_id else rest

abbrev pub with_event : Bool → RunEvent → List RunEvent → List RunEvent
with_event mine ev buffer =
    if mine && ltb (length buffer) capacity then buffer ++ ev ∷ [] else buffer

abbrev pub after_event : Bool → RunEvent → Option (List RunEvent) → Option (List RunEvent)
after_event mine ev none = none
after_event mine ev (some buffer) = some (with_event mine ev buffer)

waiting-map-offer :
    (id : ℕ) (run_id : Text) (ev : RunEvent) (ss : List Subscription)
    → waiting id (map (offer run_id ev) ss)
      ≡ after_event (listens_to id run_id ss) ev (waiting id ss)
waiting-map-offer id run_id ev [] = refl
waiting-map-offer id run_id ev (s ∷ ss) = ground (arith, waiting-map-offer id run_id ev ss)

-- A delivery appends the event to the buffer of a listener of its run that has room, and leaves
-- every other buffer as it is.
pub waiting-deliver_local :
    (id : ℕ) (run_id : Text) (ev : RunEvent) (h : Hub)
    → waiting id (deliver_local run_id ev h).subs
      ≡ after_event (listens_to id run_id h.subs) ev (waiting id h.subs)
unfolding deliver_local
waiting-deliver_local id run_id ev h = waiting-map-offer id run_id ev h.subs

trim_prefix-append : (p s : Text) → trim_prefix p (p ++ s) ≡ s
trim_prefix-append [] s = refl
trim_prefix-append (c ∷ p) s = ground (arith, trim_prefix-append p s)

-- The buffer of a listener after an event of some run.
abbrev pub buffer_after : Bool → RunEvent → List RunEvent → List RunEvent
buffer_after mine ev buffer =
    if mine then (if ltb (length buffer) 32 then buffer ++ ev ∷ [] else buffer) else buffer

with_event_lem :
    (mine : Bool) (ev : RunEvent) (buffer : List RunEvent)
    → with_event mine ev buffer ≡ buffer_after mine ev buffer
with_event_lem true ev buffer = refl
with_event_lem false ev buffer = refl

-- An event that a replica with a bus broadcasts for a run, if it is encoded and the publish
-- succeeds, goes out in one message and is not yet delivered on that replica. On every replica that
-- takes the message in, a live subscription gets the event behind what waits in its buffer if it
-- listens to that run and holds fewer than 32 events, and is as it was if not. The decoder reads
-- what the encoder writes.
pub broadcast-deliver_from_bus :
    (c : RawCall) (unmarshal : Text → Option RunEvent) (run_id : Text) (ev : RunEvent)
    (payload : Text) (a b : Hub) (id : ℕ) (buffer : List RunEvent)
    → ((e : RunEvent) (p : Text) → c.marshal e ≡ some p → unmarshal p ≡ some e)
    → c.marshal ev ≡ some payload
    → c.raw_ok ≡ true
    → a.has_bus ≡ true
    → waiting id b.subs ≡ some buffer
    → (subject : Text) × ((broadcast c run_id ev a).raw ≡ a.raw ++ (subject, payload) ∷ [])
      × ((broadcast c run_id ev a).subs ≡ a.subs)
      × (waiting id (deliver_from_bus unmarshal subject payload b).subs
          ≡ some (buffer_after (listens_to id run_id b.subs) ev buffer))
unfolding broadcast deliver_from_bus deliver_local
broadcast-deliver_from_bus c unmarshal run_id ev payload a b id buffer reads writes ok bus live = (
  run_events_prefix ++ run_id,
  ap (λ h. h.raw) out,
  ap (λ h. h.subs) out,
  ap (λ o. waiting id (deliver_decoded (run_events_prefix ++ run_id) o b).subs)
        (reads ev payload writes)
      ∙ (ap (λ r. waiting id (deliver_local r ev b).subs)
            (trim_prefix-append run_events_prefix run_id)
          ∙ (waiting-map-offer id run_id ev b.subs
              ∙ (ap (after_event (listens_to id run_id b.subs) ev) live
                  ∙ ap some (with_event_lem (listens_to id run_id b.subs) ev buffer)))),
)
  where
    out :
        broadcast c run_id ev a
        ≡ record a { raw = a.raw ++ (run_events_prefix ++ run_id, payload) ∷ [] }
    out =
        ap (λ z. broadcast_over z c run_id ev a) bus
        ∙ (ap (λ z. publish_raw z (run_events_prefix ++ run_id) (c.marshal ev) a) ok
            ∙ ap (λ z. publish_raw true (run_events_prefix ++ run_id) z a) writes)

select-lacks-lacks :
    (id : ℕ) (ss : List Subscription)
    → select (lacks_id id) (select (lacks_id id) ss) ≡ select (lacks_id id) ss
select-lacks-lacks id [] = refl
select-lacks-lacks id (s ∷ ss) = elim (Bool-cases (s.id == id)) [
  | inl e ↦ rw e (select-lacks-lacks id ss)
  | inr e ↦ rw e (rw e (ap (λ r. s ∷ r) (select-lacks-lacks id ss)))
]

select-has-lacks :
    (id : ℕ) (ss : List Subscription) → select (has_id id) (select (lacks_id id) ss) ≡ []
select-has-lacks id [] = refl
select-has-lacks id (s ∷ ss) = elim (Bool-cases (s.id == id)) [
  | inl e ↦ rw e (select-has-lacks id ss)
  | inr e ↦ rw e (rw e (select-has-lacks id ss))
]

-- A second call of a cancel func does nothing: it closes no channel again.
pub cancel-cancel : (id : ℕ) (h : Hub) → cancel id (cancel id h) ≡ cancel id h
unfolding cancel
cancel-cancel id h = rw (select-lacks-lacks id h.subs, select-has-lacks id h.subs, append-nil)
