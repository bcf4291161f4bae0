-- ===== src/Builds/Stages.antt =====
-- The stages of a build (handle of cmd/builder/main.go) end in one completion.
use ai_lab.Agents.{AgentRow, get_agent}
use ai_lab.Prelude.{
  ℕ, ◌+◌, ◌≤◌, ◌≡◌, refl, ◌∙◌, inl, inr, true, Option, none, some, [], ◌∷◌, ◌++◌, arith, Bool-cases,
  Option-cases, length, length-append, Text, txt,
}
use ai_lab.Events.{BuildRequested}
use ai_lab.Builds.{Status, is_terminal}
use ai_lab.Builds.Jobs.{BuildConfig, BuildJob, build_kaniko_job, build_trivy_job, build_cosign_job}
use ai_lab.Builds.Worker.{
  World, Creation, created, already_exists, refused, Cluster, run_job, complete, image_ref,
  sign_and_finish, scan_and_sign, begun, build_image, with_agent, handle,
}

-- The Job that handle creates for each stage of a build of an agent.
abbrev pub kaniko_job : BuildConfig → BuildRequested → Text → BuildJob
kaniko_job cfg ev ref =
    build_kaniko_job (txt "build-" ++ ev.build_id) cfg.namespace cfg.kaniko_image ev.source_url ref

abbrev pub trivy_job : BuildConfig → BuildRequested → Text → BuildJob
trivy_job cfg ev ref =
    build_trivy_job (txt "scan-" ++ ev.build_id) cfg.namespace cfg.trivy_image cfg.trivy_severity
      ref

abbrev pub cosign_job : BuildConfig → BuildRequested → Text → BuildJob
cosign_job cfg ev ref =
    build_cosign_job (txt "sign-" ++ ev.build_id) cfg.namespace cfg.cosign_image cfg.cosign_secret
      cfg.cosign_key_path ref

-- The Job ran to success.
abbrev pub Passes : Cluster → BuildJob → Type 0
Passes k job = (w : World) → (run_job k job w).1 ≡ none

-- Every stage that is switched on has succeeded on the image.
pub record Vetted (cfg : BuildConfig) (k : Cluster) (ev : BuildRequested) (ref : Text)
    : Type 0 where
  pub built : Passes k (kaniko_job cfg ev ref)
  pub scanned : cfg.trivy_enabled ≡ true → Passes k (trivy_job cfg ev ref)
  pub signed : cfg.cosign_enabled ≡ true → Passes k (cosign_job cfg ev ref)

-- The completion in which some steps of handle end: its arguments, and the world before it. A
-- success asks for P, and no step creates more than n Jobs.
pub record Ending (k : Cluster) (P : Type 0) (n now : ℕ) (ev : BuildRequested) (w w' : World)
    : Type 0 where
  pub status : Status
  pub image : Text
  pub message : Text
  pub before : World
  pub completes_it : w' ≡ complete k now ev status image message before
  pub ends : is_terminal status ≡ true
  pub success : status ≡ Status.succeeded → P
  pub same_db : before.db ≡ w.db
  pub same_events : before.published ≡ w.published
  pub few_jobs : length before.jobs ≤ length w.jobs + n

run_job_error :
    (k : Cluster) (job : BuildJob) (w v : World) → (run_job k job w).1 ≡ (run_job k job v).1
unfolding run_job
run_job_error k job w v = ground arith

run_job_keeps :
    (k : Cluster) (job : BuildJob) (w : World)
    → ((run_job k job w).0.db ≡ w.db)
      × ((run_job k job w).0.published ≡ w.published)
      × (length (run_job k job w).0.jobs ≤ length w.jobs + 1)
unfolding run_job
run_job_keeps k job w = go (k.creation job) refl
  where
    go :
        (c : Creation)
        → k.creation job ≡ c
        → ((run_job k job w).0.db ≡ w.db)
          × ((run_job k job w).0.published ≡ w.published)
          × (length (run_job k job w).0.jobs ≤ length w.jobs + 1)
    go created e = rw (run_job, e) (refl, refl, omega (arith, length-append w.jobs (job ∷ [])))
    go already_exists e = rw (run_job, e) (refl, refl, omega arith)
    go (refused r) e = rw (run_job, e) (refl, refl, omega arith)

-- A completion right away.
ends_now :
    {P : Type 0} (k : Cluster) (n now : ℕ) (ev : BuildRequested) (w : World) (st : Status)
    (image msg : Text)
    → is_terminal st ≡ true
    → (st ≡ Status.succeeded → P)
    → Ending k P n now ev w (complete k now ev st image msg w)
ends_now k n now ev w st image msg h p = record {
  status = st;
  image = image;
  message = msg;
  before = w;
  completes_it = refl;
  ends = h;
  success = p;
  same_db = refl;
  same_events = refl;
  few_jobs = omega arith;
}

-- One Job before steps that end so.
after_job :
    {P : Type 0} {n now : ℕ} {ev : BuildRequested} {v : World} (k : Cluster) (job : BuildJob)
    (w : World)
    → Ending k P n now ev ((run_job k job w).0) v
    → Ending k P (n + 1) now ev w v
after_job k job w e =
    let (db, events, few) = run_job_keeps k job w in
    record {
      status = e.status;
      image = e.image;
      message = e.message;
      before = e.before;
      completes_it = e.completes_it;
      ends = e.ends;
      success = e.success;
      same_db = e.same_db ∙ db;
      same_events = e.same_events ∙ events;
      few_jobs = omega (arith, few, e.few_jobs);
    }

weaken :
    {k : Cluster} {P Q : Type 0} {n m now : ℕ} {ev : BuildRequested} {w v : World}
    → (P → Q)
    → n ≤ m
    → Ending k P n now ev w v
    → Ending k Q m now ev w v
weaken imp le e = record {
  status = e.status;
  image = e.image;
  message = e.message;
  before = e.before;
  completes_it = e.completes_it;
  ends = e.ends;
  success = λ s. imp (e.success s);
  same_db = e.same_db;
  same_events = e.same_events;
  few_jobs = omega (arith, le, e.few_jobs);
}

sign-Ending :
    (cfg : BuildConfig) (k : Cluster) (now : ℕ) (ev : BuildRequested) (ref : Text) (w : World)
    → Ending k
        (cfg.cosign_enabled ≡ true → Passes k (cosign_job cfg ev ref))
        1
        now
        ev
        w
        (sign_and_finish cfg k now ev ref w)
unfolding sign_and_finish
sign-Ending cfg k now ev ref w = elim (Bool-cases cfg.cosign_enabled) [
  | inr off ↦ rw off (ends_now k 1 now ev w Status.succeeded ref [] refl (λ s on. absurd cc))
  | inl on ↦ rw on (elim (Option-cases ((run_job k (cosign_job cfg ev ref) w).1)) [
    | inl ok ↦ rw ok (
        after_job k (cosign_job cfg ev ref) w (
          ends_now k 0 now ev _ Status.succeeded ref [] refl
            (λ s h v. run_job_error k (cosign_job cfg ev ref) v w ∙ ok)))
    | inr (e, bad) ↦ rw bad (
        after_job k (cosign_job cfg ev ref) w
          (ends_now k 0 now ev _ Status.failed [] (txt "cosign: " ++ e) refl (λ s. absurd cc)))
  ])
]

scan-Ending :
    (cfg : BuildConfig) (k : Cluster) (now : ℕ) (ev : BuildRequested) (ref : Text) (w : World)
    → Ending k
        ((cfg.trivy_enabled ≡ true → Passes k (trivy_job cfg ev ref))
          × (cfg.cosign_enabled ≡ true → Passes k (cosign_job cfg ev ref)))
        2
        now
        ev
        w
        (scan_and_sign cfg k now ev ref w)
unfolding scan_and_sign sign_and_finish
scan-Ending cfg k now ev ref w = elim (Bool-cases cfg.trivy_enabled) [
  | inr off ↦
      rw off (
        weaken (λ signed. (λ on. absurd cc, signed)) (omega arith) (sign-Ending cfg k now ev ref w))
  | inl on ↦ rw on (elim (Option-cases ((run_job k (trivy_job cfg ev ref) w).1)) [
    | inl ok ↦ rw ok (
        after_job {n = 1} k (trivy_job cfg ev ref) w (
          weaken (λ signed. (λ h v. run_job_error k (trivy_job cfg ev ref) v w ∙ ok, signed))
            (omega arith) (sign-Ending cfg k now ev ref _)))
    | inr (e, bad) ↦ rw bad (
        after_job k (trivy_job cfg ev ref) w
          (ends_now k 1 now ev _ Status.blocked [] (txt "trivy: " ++ e) refl (λ s. absurd cc)))
  ])
]

unfoldable pub Promoted : BuildConfig → Cluster → BuildRequested → World → Type 0
Promoted cfg k ev w =
    (agent : AgentRow) × (get_agent ev.tenant_id ev.agent_id w.db.agents ≡ some agent)
    × Vetted cfg k ev (image_ref cfg ev agent)

to_Promoted :
    (cfg : BuildConfig) (k : Cluster) (ev : BuildRequested) (w : World) (agent : AgentRow)
    → get_agent ev.tenant_id ev.agent_id w.db.agents ≡ some agent
    → Vetted cfg k ev (image_ref cfg ev agent)
    → Promoted cfg k ev w
unfolding Promoted
to_Promoted cfg k ev w agent found v = (agent, found, v)

build_image-Ending :
    (cfg : BuildConfig) (k : Cluster) (now : ℕ) (ev : BuildRequested) (w v : World)
    (agent : AgentRow)
    → get_agent ev.tenant_id ev.agent_id w.db.agents ≡ some agent
    → Ending k (Promoted cfg k ev w) 3 now ev v (build_image cfg k now ev agent v)
unfolding build_image
build_image-Ending cfg k now ev w v agent found =
    let job = kaniko_job cfg ev (image_ref cfg ev agent) in
    elim (Option-cases (run_job k job v).1) [
      | inl ok ↦
          rw (build_image, ok)
            (after_job {n = 2} k job v (
              weaken
                (λ stages. to_Promoted cfg k ev w agent found (record {
                  built = λ u. run_job_error k job u v ∙ ok;
                  scanned = stages.0;
                  signed = stages.1;
                }))
                (omega arith) (scan-Ending cfg k now ev (image_ref cfg ev agent) _)))
      | inr (e, bad) ↦
          rw (build_image, bad)
            (after_job k job v
              (ends_now k 2 now ev _ Status.failed [] (txt "kaniko: " ++ e) refl (λ s. absurd cc)))
    ]

pub handle-Ending :
    (cfg : BuildConfig) (k : Cluster) (now : ℕ) (ev : BuildRequested) (w : World)
    → Ending k (Promoted cfg k ev w) 3 now ev (begun k ev w) (handle cfg k now ev w)
unfolding handle with_agent
handle-Ending cfg k now ev w =
    go k.lookup_error (get_agent ev.tenant_id ev.agent_id w.db.agents) refl
  where
    go :
        (o : Option Text) (a : Option AgentRow)
        → get_agent ev.tenant_id ev.agent_id w.db.agents ≡ a
        → Ending k
            (Promoted cfg k ev w)
            3
            now
            ev
            (begun k ev w)
            (with_agent cfg k now ev o a (begun k ev w))
    go (some e) a q =
        ends_now k 3 now ev (begun k ev w) Status.failed [] (txt "resolve agent: " ++ e) refl
          (λ s. absurd cc)
    go none none q =
        ends_now k 3 now ev (begun k ev w) Status.failed [] (txt "resolve agent: not found") refl
          (λ s. absurd cc)
    go none (some agent) q = build_image-Ending cfg k now ev w (begun k ev w) agent q
