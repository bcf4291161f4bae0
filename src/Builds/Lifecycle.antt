-- ===== src/Builds/Lifecycle.antt =====
-- The life of a row of the builds table (internal/builds/repo.go, failStuckBuilds of
-- cmd/janitor/main.go).
use ai_lab.Prelude.{
  ℕ, ◌≤◌, ◌≡◌, refl, ap, ◌∙◌, inl, inr, Bool, true, false, none, some, List, [], ◌∷◌, arith,
  if◌then◌else◌, Bool-cases, Option-cases, All, Text, update_where, select_one, Rows,
  update_where-Rows, Rows-refl, Rows-trans,
}
use ai_lab.Builds.{
  Status, pending, running, BuildRow, Database, mark_running, is_terminal, completes, completed_row,
  mark_completed, fail_stuck_builds, run_applies, running_row, is_stuck, stuck_row,
}

-- One statement on the table, by the worker or the janitor.
pub data Write : Type 0 where
  run : Text → Write
  complete : Text → Status → Text → Text → ℕ → Write
  sweep : ℕ → ℕ → Write

unfoldable pub write : Write → Database → Database
write (run id) db = record db { builds = mark_running id db.builds }
write (complete id st image msg ended) db = mark_completed id st image msg ended db
write (sweep now stuck) db = record db { builds = fail_stuck_builds now stuck db.builds }

abbrev pub write_all : List Write → Database → Database
write_all [] db = db
write_all (w ∷ ws) db = write_all ws (write w db)

abbrev pub EndsBuild : Write → Type 0
EndsBuild (complete id st image msg ended) = is_terminal st ≡ true
EndsBuild _ = Unit

abbrev pub rank : Status → ℕ
rank pending = 0
rank running = 1
rank _ = 2

-- How a row may look after some statements, given how it looked before.
pub record Follows (r s : BuildRow) : Type 0 where
  pub same_id : s.id ≡ r.id
  pub same_tenant : s.tenant_id ≡ r.tenant_id
  pub same_agent : s.agent_id ≡ r.agent_id
  pub same_source : s.source_url ≡ r.source_url
  pub frozen : is_terminal r.status ≡ true → s ≡ r
  pub upward : rank r.status ≤ rank s.status

Follows-refl : (r : BuildRow) → Follows r r
Follows-refl r = record {
  same_id = refl;
  same_tenant = refl;
  same_agent = refl;
  same_source = refl;
  frozen = λ h. refl;
  upward = omega arith;
}

Follows-trans : (r s t : BuildRow) → Follows r s → Follows s t → Follows r t
Follows-trans r s t f g = record {
  same_id = g.same_id ∙ f.same_id;
  same_tenant = g.same_tenant ∙ f.same_tenant;
  same_agent = g.same_agent ∙ f.same_agent;
  same_source = g.same_source ∙ f.same_source;
  frozen =
      λ h. let e = f.frozen h in g.frozen (ap (λ (x : BuildRow). is_terminal x.status) e ∙ h) ∙ e;
  upward = omega (arith, f.upward, g.upward);
}

update_where-Follows :
    (p : BuildRow → Bool) (f : BuildRow → BuildRow)
    → ((r : BuildRow)
        → ((f r).id ≡ r.id)
          × ((f r).tenant_id ≡ r.tenant_id)
          × ((f r).agent_id ≡ r.agent_id)
          × ((f r).source_url ≡ r.source_url))
    → ((r : BuildRow)
        → p r ≡ true
        → (is_terminal r.status ≡ false) × (rank r.status ≤ rank ((f r).status)))
    → (rows : List BuildRow) → Rows Follows rows (update_where p f rows)
update_where-Follows p f keeps opens = update_where-Rows p f step
  where
    step : (r : BuildRow) → Follows r (if p r then f r else r)
    step r = elim (Bool-cases (p r)) [
      | inr n ↦ rw n (Follows-refl r)
      | inl e ↦
          let (a, b, c, d) = keeps r in
          rw e (record {
            same_id = a;
            same_tenant = b;
            same_agent = c;
            same_source = d;
            frozen = λ q. ground (arith, (opens r e).0);
            upward = (opens r e).1;
          })
    ]

write-Follows :
    (w : Write) (db : Database) → EndsBuild w → Rows Follows db.builds ((write w db).builds)
unfolding write mark_running fail_stuck_builds mark_completed
write-Follows (run id) db h =
    update_where-Follows (run_applies id) running_row (λ r. (refl, refl, refl, refl))
      (λ r q. (ground arith, ground arith)) db.builds
write-Follows (complete id st image msg ended) db h =
    elim (Option-cases (select_one (completes id) db.builds)) [
      | inl e ↦ rw (mark_completed, e) (Rows-refl Follows-refl db.builds)
      | inr (x, e) ↦
          rw (mark_completed, e)
            (update_where-Follows (completes id) (completed_row st image msg ended)
              (λ r. (refl, refl, refl, refl)) (λ r q. (ground arith, ground arith)) db.builds)
    ]
write-Follows (sweep now stuck) db h =
    update_where-Follows (is_stuck now stuck) (stuck_row now) (λ r. (refl, refl, refl, refl))
      (λ r q. (ground arith, ground arith)) db.builds

-- Over any writes of the worker and the janitor whose completions carry terminal statuses, every
-- build keeps its place, id, tenant, agent and source, its status never goes back, and a terminal
-- row keeps all its columns.
pub build_writes-Follows :
    (ws : List Write) (db : Database)
    → All EndsBuild ws
    → Rows Follows db.builds ((write_all ws db).builds)
build_writes-Follows [] db h = Rows-refl Follows-refl db.builds
build_writes-Follows (w ∷ ws) db h =
    Rows-trans Follows-trans (write-Follows w db h.0) (build_writes-Follows ws (write w db) h.1)

none_after :
    (id : Text) (st : Status) (image msg : Text) (ended : ℕ) (rows : List BuildRow)
    → is_terminal st ≡ true
    → select_one
        (completes id)
        (update_where (completes id) (completed_row st image msg ended) rows)
      ≡ none
none_after id st image msg ended [] h = refl
none_after id st image msg ended (r ∷ rows) h =
    ground (arith, none_after id st image msg ended rows h)

completed_none :
    (id : Text) (st : Status) (image msg : Text) (ended : ℕ) (db : Database)
    → select_one (completes id) db.builds ≡ none
    → mark_completed id st image msg ended db ≡ db
unfolding mark_completed
completed_none id st image msg ended db e = rw (mark_completed, e) refl

-- After a completion of a build with a terminal status any other completion of it changes neither
-- the builds nor the agents, so a redelivered or late result never replaces the agent's image.
pub build_completed_once :
    (id : Text) (st st' : Status) (image image' msg msg' : Text) (ended ended' : ℕ) (db : Database)
    → is_terminal st ≡ true
    → mark_completed id st' image' msg' ended' (mark_completed id st image msg ended db)
      ≡ mark_completed id st image msg ended db
unfolding mark_completed
build_completed_once id st st' image image' msg msg' ended ended' db h =
    elim (Option-cases (select_one (completes id) db.builds)) [
      | inl e ↦
          rw (completed_none id st image msg ended db e)
            (completed_none id st' image' msg' ended' db e)
      | inr (r, e) ↦
          completed_none id st' image' msg' ended' (mark_completed id st image msg ended db)
            (completed_some r e)
    ]
  where
    completed_some :
        (r : BuildRow)
        → select_one (completes id) db.builds ≡ some r
        → select_one (completes id) (mark_completed id st image msg ended db).builds ≡ none
    completed_some r e = rw (mark_completed, e) (none_after id st image msg ended db.builds h)
