-- ===== src/Builds/Promotion.antt =====
-- What the builder's worker makes of a queued build (handle of cmd/builder/main.go): how the build
-- ends, what is reported, and which images reach the agents.
use ai_lab.Agents.{AgentRow, get_agent}
use ai_lab.Prelude.{
  ℕ, ◌+◌, ◌≤◌, ◌≡◌, subst, refl, sym, ap, ◌∙◌, ◌≢◌, ◌⊎◌, inl, inr, Bool, true, false, none, some,
  List, [], ◌∷◌, ◌++◌, arith, if◌then◌else◌, Option-cases, length, All, All-map, Text, same,
  same→eq, same_iff, update_where, select, select_one, All-select_if,
}
use ai_lab.Events.{BuildRequested, BuildCompleted}
use ai_lab.Builds.{
  Status, BuildRow, Database, is_terminal, completes, completed_row, mark_completed,
}
use ai_lab.Builds.Jobs.{BuildConfig}
use ai_lab.Builds.Worker.{World, Cluster, done_event, complete, image_ref, begun, handle}
use ai_lab.Builds.Stages.{Vetted, Ending, Promoted, handle-Ending}

complete-published :
    (k : Cluster) (now : ℕ) (ev : BuildRequested) (st : Status) (image msg : Text) (w : World)
    → k.publish_ok ≡ true
    → (complete k now ev st image msg w).published
      ≡ w.published ++ done_event now ev st image msg ∷ []
unfolding complete
complete-published k now ev st image msg w ok = rw ok refl

complete-jobs :
    (k : Cluster) (now : ℕ) (ev : BuildRequested) (st : Status) (image msg : Text) (w : World)
    → (complete k now ev st image msg w).jobs ≡ w.jobs
unfolding complete
complete-jobs k now ev st image msg w = refl

complete-builds :
    (k : Cluster) (now : ℕ) (ev : BuildRequested) (st : Status) (image msg : Text) (w : World)
    → k.completed_ok ≡ true
    → (complete k now ev st image msg w).db ≡ mark_completed ev.build_id st image msg now w.db
unfolding complete
complete-builds k now ev st image msg w ok = rw ok refl

-- However the agent, the cluster and the Jobs behave, and whether or not the database takes the
-- writes, handling a queued build with a bus that takes its message publishes exactly one
-- build.completed, for that build and after all that was published before, and creates no more
-- than three Jobs.
pub handle_reports :
    (cfg : BuildConfig) (k : Cluster) (now : ℕ) (ev : BuildRequested) (w : World)
    → k.publish_ok ≡ true
    → ((done : BuildCompleted) × (done.build_id ≡ ev.build_id)
        × (done.tenant_id ≡ ev.tenant_id)
        × ((handle cfg k now ev w).published ≡ w.published ++ done ∷ []))
      × (length (handle cfg k now ev w).jobs ≤ length w.jobs + 3)
handle_reports cfg k now ev w ok =
    let e = handle-Ending cfg k now ev w in
    let done = done_event now ev e.status e.image e.message in
    (
      (
        done,
        refl,
        refl,
        ap (λ (v : World). v.published) e.completes_it
            ∙ complete-published k now ev e.status e.image e.message e.before ok
            ∙ ap (λ ms. ms ++ done ∷ []) e.same_events,
      ),
      subst (λ jobs. length jobs ≤ length w.jobs + 3)
          (sym (
            ap (λ (v : World). v.jobs) e.completes_it
            ∙ complete-jobs k now ev e.status e.image e.message e.before))
          e.few_jobs,
    )

Ended : Text → BuildRow → Type 0
Ended id r = r.id ≡ id → is_terminal r.status ≡ true

none_open :
    (id : Text) (rows : List BuildRow) → select_one (completes id) rows ≡ none → All (Ended id) rows
unfolding Ended
none_open id [] h = tt
none_open id (r ∷ rows) h =
    (λ e. ground (arith, same_iff r.id id, e), none_open id rows (ground arith))

updated-Ended :
    (id : Text) (st : Status) (image msg : Text) (now : ℕ) (rows : List BuildRow)
    → is_terminal st ≡ true
    → All (Ended id) (update_where (completes id) (completed_row st image msg now) rows)
unfolding Ended
updated-Ended id st image msg now [] h = tt
updated-Ended id st image msg now (r ∷ rows) h =
    (λ e. ground (arith, same_iff r.id id, e), updated-Ended id st image msg now rows h)

mark_completed-Ended :
    (id : Text) (st : Status) (image msg : Text) (now : ℕ) (db : Database)
    → is_terminal st ≡ true
    → All (Ended id) (mark_completed id st image msg now db).builds
unfolding mark_completed
mark_completed-Ended id st image msg now db h =
    elim (Option-cases (select_one (completes id) db.builds)) [
      | inl e ↦ rw (mark_completed, e) (none_open id db.builds e)
      | inr (r, e) ↦ rw (mark_completed, e) (updated-Ended id st image msg now db.builds h)
    ]

-- Once the worker has handled a queued build, and the database has taken the completion, every row
-- of that build has a terminal status: no outcome of the agent lookup or of a Job leaves it pending
-- or running.
pub handle_ends_build :
    (cfg : BuildConfig) (k : Cluster) (now : ℕ) (ev : BuildRequested) (w : World)
    → k.completed_ok ≡ true
    → All
        (λ r. is_terminal r.status ≡ true)
        (select (λ r. same r.id ev.build_id) (handle cfg k now ev w).db.builds)
unfolding Ended
handle_ends_build cfg k now ev w ok =
    let e = handle-Ending cfg k now ev w in
    let db =
      ap (λ (v : World). v.db) e.completes_it
      ∙ complete-builds k now ev e.status e.image e.message e.before ok in
    subst
      (λ (d : Database).
        All (λ r. is_terminal r.status ≡ true) (select (λ r. same r.id ev.build_id) d.builds))
      (sym db)
      (All-select_if (λ r. is_terminal r.status ≡ true) (λ r. same r.id ev.build_id) _
        (All-map (λ r imp s. imp (same→eq r.id ev.build_id s)) _
          (mark_completed-Ended ev.build_id e.status e.image e.message now e.before.db e.ends)))

same_agents :
    (id : Text) (st : Status) (image msg : Text) (now : ℕ) (db : Database)
    → st ≢ Status.succeeded
    → (mark_completed id st image msg now db).agents ≡ db.agents
unfolding mark_completed
same_agents id st image msg now db h = ground (arith, h)

-- Whatever calls fail, handling a build changes the agents table only if the build's agent is there
-- under the tenant, and its image has been built, scanned where scanning is on, and signed where
-- signing is on.
pub handle_promotes :
    (cfg : BuildConfig) (k : Cluster) (now : ℕ) (ev : BuildRequested) (w : World)
    → (handle cfg k now ev w).db.agents ≢ w.db.agents
    → (agent : AgentRow) × (get_agent ev.tenant_id ev.agent_id w.db.agents ≡ some agent)
      × Vetted cfg k ev (image_ref cfg ev agent)
unfolding Promoted complete
handle_promotes cfg k now ev w h = let e = handle-Ending cfg k now ev w in go e (is_it e.status)
  where
    is_it : (st : Status) → (st ≡ Status.succeeded) ⊎ (st ≢ Status.succeeded)
    is_it Status.succeeded = inl refl
    is_it Status.pending = inr (λ p. cc)
    is_it Status.running = inr (λ p. cc)
    is_it Status.failed = inr (λ p. cc)
    is_it Status.blocked = inr (λ p. cc)

    kept :
        (db' db : Database) (b : Bool)
        → db'.agents ≡ db.agents
        → (if b then db' else db).agents ≡ db.agents
    kept db' db true h = h
    kept db' db false h = refl

    go :
        (e : Ending k (Promoted cfg k ev w) 3 now ev (begun k ev w) (handle cfg k now ev w))
        → (e.status ≡ Status.succeeded) ⊎ (e.status ≢ Status.succeeded)
        → Promoted cfg k ev w
    go e (inl s) = e.success s
    go e (inr n) = absurd (
        h (
          ap (λ (v : World). v.db.agents) e.completes_it
          ∙ kept (mark_completed ev.build_id e.status e.image e.message now e.before.db) e.before.db
              k.completed_ok (same_agents ev.build_id e.status e.image e.message now e.before.db n)
          ∙ ap (λ (d : Database). d.agents) e.same_db))
