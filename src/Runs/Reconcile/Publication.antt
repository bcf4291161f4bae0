-- ===== src/Runs/Reconcile/Publication.antt =====
-- Phases never leave a final one, and a run's completion goes out at most once.
use ai_lab.Prelude.{
  ℕ, suc, ◌+◌, ◌≤◌, ◌≡◌, Bool, true, false, Option, none, some, List, [], ◌∷◌, ◌++◌, arith, refl,
  ap, ◌∙◌, if◌then◌else◌, inl, inr, Bool-cases, ◌<◌, not,
}
use ai_lab.Runs.Resources.{AgentRun, JobStatus, Job, Phase}
use ai_lab.Runs.Reconcile.{
  Message, run_started, run_completed, World, Call, is_final, reconcile, message_for,
  publish_on_transition, Failure, create_missing, follow_job, with_job, with_run, observe,
}

-- A reconciliation, or what the cluster does to the Job between two of them: its status becomes
-- any other, or the Job is deleted.
pub data Move : Type 0 where
  reconciled : Call → Move
  job_changed : JobStatus → Move
  job_deleted : Move

abbrev pub with_status : JobStatus → Option Job → Option Job
with_status j none = none
with_status j (some job) = some (record job { status = j })

abbrev pub move : Move → World → World
move (reconciled c) w = (reconcile c w).0
move (job_changed j) w = record w { job = with_status j w.job }
move job_deleted w = record w { job = none }

abbrev pub moves : List Move → World → World
moves [] w = w
moves (m ∷ ms) w = moves ms (move m w)

abbrev pub completions : List Message → ℕ
completions [] = 0
completions (run_started e ∷ ms) = completions ms
completions (run_completed e ∷ ms) = suc (completions ms)

abbrev pub is_finished : Option AgentRun → Bool
is_finished none = false
is_finished (some run) = is_final run.status.phase

completions-append :
    (ms ns : List Message) → completions (ms ++ ns) ≡ completions ms + completions ns
completions-append [] ns = omega arith
completions-append (run_started e ∷ ms) ns = omega (arith, completions-append ms ns)
completions-append (run_completed e ∷ ms) ns = omega (arith, completions-append ms ns)

reconcile_of_final : (c : Call) (w : World) → is_finished w.run ≡ true → (reconcile c w).0 ≡ w
unfolding reconcile
reconcile_of_final c w h = ground arith

move_of_final :
    (m : Move) (w : World)
    → is_finished w.run ≡ true
    → ((move m w).run ≡ w.run) × ((move m w).published ≡ w.published)
move_of_final (reconciled c) w h =
    let e = reconcile_of_final c w h in
    (ap (λ (v : World). v.run) e, ap (λ (v : World). v.published) e)
move_of_final (job_changed j) w h = (refl, refl)
move_of_final job_deleted w h = (refl, refl)

-- A final phase is the last one: no reconciliation, with whatever outcomes, and nothing that
-- happens to the Job changes the resource or publishes anything more.
pub moves_after_final :
    (ms : List Move) (w : World)
    → is_finished w.run ≡ true
    → ((moves ms w).run ≡ w.run) × ((moves ms w).published ≡ w.published)
moves_after_final [] w h = (refl, refl)
moves_after_final (m ∷ ms) w h =
    let (r, p) = move_of_final m w h in
    let (rs, ps) = moves_after_final ms (move m w) (ap is_finished r ∙ h) in (rs ∙ r, ps ∙ p)

-- No completion is out unless the run is finished, and then at most one.
pub record AtMostOnce (w : World) : Type 0 where
  pub once : completions w.published ≤ 1
  pub only_final : is_finished w.run ≡ false → completions w.published ≡ 0

abbrev coalesce_message : Option Message → List Message
coalesce_message none = []
coalesce_message (some m) = m ∷ []

-- A publish adds at most one completion, and none unless the phase is final.
completions-publish :
    (c : Call) (run : AgentRun) (prev : Phase) (ms : List Message)
    → completions (publish_on_transition c run prev ms)
      ≤ completions ms + (if is_final run.status.phase then 1 else 0)
unfolding publish_on_transition message_for
completions-publish c run prev ms =
    ground
      (arith, completions-append ms (coalesce_message (message_for c.now run run.status.phase)))

-- What may be added to the completions: one, if the run is then finished.
abbrev Adds : World → World → Type 0
Adds w w' =
    completions w'.published ≤ completions w.published + (if is_finished w'.run then 1 else 0)

Adds-same : (w w' : World) → w'.published ≡ w.published → Adds w w'
Adds-same w w' e = rw e (omega arith)

Adds-if :
    (b : Bool) (w : World) (x y : World × Option Failure)
    → Adds w x.0
    → Adds w y.0
    → Adds w (if b then x else y).0
Adds-if true w x y a b = a
Adds-if false w x y a b = b

create_missing-Adds : (c : Call) (run : AgentRun) (w : World) → Adds w (create_missing c run w).0
unfolding create_missing
create_missing-Adds c run w =
    Adds-if (not c.create_ok) w _ _ (Adds-same w w refl)
      (Adds-if (not c.status_ok) w _ _ (omega arith) (omega arith))

follow_job-Adds :
    (c : Call) (run : AgentRun) (job : Job) (w : World) → Adds w (follow_job c run job w).0
unfolding follow_job
follow_job-Adds c run job w = Adds-if (not c.status_ok) w _ _ (Adds-same w w refl) (
    completions-publish c (record run { status = observe c.now job.status run.status })
      run.status.phase w.published)

with_run-Adds : (c : Call) (run : Option AgentRun) (w : World) → Adds w (with_run c run w).0
with_run-Adds c none w = Adds-same w w refl
with_run-Adds c (some run) w =
    Adds-if (is_final run.status.phase) w _ _ (Adds-same w w refl)
      (Adds-if (not c.get_job_ok) w _ _ (Adds-same w w refl) (inner w.job))
  where
    inner : (job : Option Job) → Adds w (with_job c run job w).0
    inner none = create_missing-Adds c run w
    inner (some job) = follow_job-Adds c run job w

reconcile-Adds : (c : Call) (w : World) → Adds w (reconcile c w).0
unfolding reconcile
reconcile-Adds c w = Adds-if (not c.get_run_ok) w _ _ (Adds-same w w refl) (with_run-Adds c w.run w)

reconcile-AtMostOnce : (c : Call) (w : World) → AtMostOnce w → AtMostOnce (reconcile c w).0
reconcile-AtMostOnce c w v = elim (Bool-cases (is_finished w.run)) [
  | inl e ↦ rw (reconcile_of_final c w e) v
  | inr e ↦ record {
    once = ground (arith, reconcile-Adds c w, v.only_final e);
    only_final = λ h. ground (arith, reconcile-Adds c w, v.only_final e);
  }
]

move-AtMostOnce : (m : Move) (w : World) → AtMostOnce w → AtMostOnce (move m w)
move-AtMostOnce (reconciled c) w v = reconcile-AtMostOnce c w v
move-AtMostOnce (job_changed j) w v = record { once = v.once; only_final = v.only_final }
move-AtMostOnce job_deleted w v = record { once = v.once; only_final = v.only_final }

-- From a state with at most one completion on the bus, and none unless the run's phase is final,
-- such as a run that has just been created, the same holds over any reconciliations with any
-- outcomes and whatever happens to the Job between them.
pub moves-AtMostOnce : (ms : List Move) (w : World) → AtMostOnce w → AtMostOnce (moves ms w)
moves-AtMostOnce [] w v = v
moves-AtMostOnce (m ∷ ms) w v = moves-AtMostOnce ms (move m w) (move-AtMostOnce m w v)

-- A reconciliation that reports an error has published nothing and left the resource as it was.
pub failed_reconcile :
    (c : Call) (w : World) (f : Failure)
    → (reconcile c w).1 ≡ some f
    → ((reconcile c w).0.run ≡ w.run) × ((reconcile c w).0.published ≡ w.published)
unfolding reconcile
failed_reconcile c w f h = ground arith

-- The completion that a publish loses is never sent: if the reconciliation that first sees a
-- succeeded or failed Job updates the status and then fails to publish, it still reports success,
-- the run is finished, and whatever follows the bus has no more messages than before.
pub lost_completion :
    (c : Call) (w : World) (run : AgentRun) (job : Job) (ms : List Move)
    → w.run ≡ some run
    → w.job ≡ some job
    → is_final run.status.phase ≡ false
    → 0 < job.status.succeeded + job.status.failed
    → c.get_run_ok ≡ true
    → c.get_job_ok ≡ true
    → c.status_ok ≡ true
    → c.publish_ok ≡ false
    → let after = (reconcile c w).0 in
      ((reconcile c w).1 ≡ none)
      × (is_finished after.run ≡ true)
      × ((moves ms after).published ≡ w.published)
unfolding reconcile message_for observe publish_on_transition
lost_completion c w run job ms r j open_phase done g1 g2 st lost =
    let (ok, fin, same_bus) = first_sight in
    (ok, fin, (moves_after_final ms (reconcile c w).0 fin).1 ∙ same_bus)
  where
    first_sight :
        ((reconcile c w).1 ≡ none)
        × (is_finished (reconcile c w).0.run ≡ true)
        × ((reconcile c w).0.published ≡ w.published)
    first_sight = ground arith
