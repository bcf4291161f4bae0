-- ===== src/Runs/Surface/Streams.antt =====
-- When a stream of events ends, and when it never does.
use ai_lab.Runs.Rows.Queries.{get_run_scoped}
use ai_lab.Prelude.{
  Text, ◌≡◌, refl, Bool, true, false, ◌||◌, List, [], ◌∷◌, any, subst, sym, ap, Option, none, some,
  ◌++◌, txt,
}
use ai_lab.Auth.{Identity}
use ai_lab.Runs.Rows.{Run, RunRow, get_run}
use ai_lab.Runs.Hub.{RunEvent, EventKind, run_started, run_completed, other_kind}
use ai_lab.Runs.Surface.{
  on_event, then_rest, follow, found_run, Source, frames_of, from_pod, live_pod, logs_found,
  stream_logs,
}

abbrev pub ends_run : EventKind → Bool
ends_run run_completed = true
ends_run run_started = false
ends_run (other_kind s) = false

-- A stream of a run that was still open when it was read ends by itself exactly when a completion is
-- among the events that the channel yields, whatever else is among them.
pub follow_ends : (evs : List RunEvent) → (follow evs).1 ≡ any (λ ev. ends_run ev.kind) evs
unfolding follow
follow_ends [] = refl
follow_ends (ev ∷ evs) = go ev.kind (follow_ends evs)
  where
    go :
        (k : EventKind)
        → (follow evs).1 ≡ any (λ e. ends_run e.kind) evs
        → (then_rest (on_event k ev) (follow evs)).1
          ≡ (ends_run k || any (λ e. ends_run e.kind) evs)
    go run_started h = h
    go run_completed h = refl
    go (other_kind s) h = h

module _ (p p' : Text → Text → Option Source) (q q' : Text → Text → Source)
    (tenant_id run_id : Text)
    (same_pod : p (txt "tenant-" ++ tenant_id) run_id ≡ p' (txt "tenant-" ++ tenant_id) run_id)
    (same_loki : q tenant_id run_id ≡ q' tenant_id run_id) where
  picked :
      (o o' : Option Source) (run : Run)
      → o ≡ o'
      → q run.tenant_id run.id ≡ q' run.tenant_id run.id
      → from_pod o (record { pod = some p; loki = some q }) run
        ≡ from_pod o' (record { pod = some p'; loki = some q' }) run
  picked none none run e k = ap frames_of k
  picked none (some b) run e k = absurd cc
  picked (some a) none run e k = absurd cc
  picked (some a) (some b) run e k = let ab : a ≡ b = cc in ap frames_of ab

  run_logs :
      (run : Run)
      → run.tenant_id ≡ tenant_id
      → run.id ≡ run_id
      → from_pod (live_pod (some p) run) (record { pod = some p; loki = some q }) run
        ≡ from_pod (live_pod (some p') run) (record { pod = some p'; loki = some q' }) run
  run_logs run t r =
      let at_pod : p (txt "tenant-" ++ run.tenant_id) run.id
          ≡ p' (txt "tenant-" ++ run.tenant_id) run.id =
        subst (λ z. p (txt "tenant-" ++ run.tenant_id) z ≡ p' (txt "tenant-" ++ run.tenant_id) z)
          (sym r)
          (subst (λ z. p (txt "tenant-" ++ z) run_id ≡ p' (txt "tenant-" ++ z) run_id) (sym t)
            same_pod) in
      let at_loki : q run.tenant_id run.id ≡ q' run.tenant_id run.id =
        subst (λ z. q run.tenant_id z ≡ q' run.tenant_id z) (sym r)
          (subst (λ z. q z run_id ≡ q' z run_id) (sym t) same_loki) in
      picked (p (txt "tenant-" ++ run.tenant_id) run.id)
        (p' (txt "tenant-" ++ run.tenant_id) run.id) run at_pod at_loki

  found_logs :
      (ok flushes : Bool) (o : Option Run)
      → ((run : Run) → o ≡ some run → (run.tenant_id ≡ tenant_id) × (run.id ≡ run_id))
      → logs_found (found_run ok o) flushes (record { pod = some p; loki = some q })
        ≡ logs_found (found_run ok o) flushes (record { pod = some p'; loki = some q' })
  found_logs false flushes o h = refl
  found_logs true flushes none h = refl
  found_logs true false (some run) h = refl
  found_logs true true (some run) h =
      ap (λ fs. (200, fs)) (run_logs run (h run refl).0 (h run refl).1)

-- The logs that a caller is shown depend on nothing but what the cluster and Loki hold for the run
-- asked for under the caller's own tenant: two worlds that agree on this give the same answer,
-- whatever else they hold.
pub stream_logs_isolation :
    (i : Identity) (run_id : Text) (ok flushes : Bool) (rows : List RunRow)
    (p p' : Text → Text → Option Source) (q q' : Text → Text → Source)
    → p (txt "tenant-" ++ i.tenant_id) run_id ≡ p' (txt "tenant-" ++ i.tenant_id) run_id
    → q i.tenant_id run_id ≡ q' i.tenant_id run_id
    → stream_logs (some i) run_id ok flushes rows (record { pod = some p; loki = some q })
      ≡ stream_logs (some i) run_id ok flushes rows (record { pod = some p'; loki = some q' })
unfolding stream_logs
stream_logs_isolation i run_id ok flushes rows p p' q q' same_pod same_loki =
    found_logs p p' q q' i.tenant_id run_id same_pod same_loki ok flushes
      (get_run i.tenant_id run_id rows) (λ run e. get_run_scoped i.tenant_id run_id rows run e)
