-- ===== src/Janitor/Survivors.antt =====
-- What the janitor leaves alone.
use ai_lab.Prelude.{
  ℕ, ◌-◌, ◌≡◌, ◌⊎◌, inl, inr, Bool, true, false, List, [], ◌∷◌, same, any, delete_where, In, ap,
  ◌∙◌, arith, Bool-cases, is_empty_iff, ◌+◌, ◌<◌, refl, sym, ◌≢◌, none, some, ◌++◌, Option-cases,
  Text, txt, same_iff, cut_prefix, cut_prefix→eq, lookup,
}
use ai_lab.Runs.Resources.{Job, run_label}
use ai_lab.Runs.Rows.{RunRow}
use ai_lab.Vault.Projection.{KubeSecret}
use ai_lab.Janitor.{
  Held, Sweep, in_tenant, is_old, gc_jobs, run_of, label_of, gc_orphan_secrets, is_swept, is_orphan,
  Settings, Calls, Estate, tick,
}

survives :
    {V : Type 0} (p : Held V → Bool) (xs : List (Held V)) (v : Held V)
    → In v xs
    → p v ≡ false
    → In v (delete_where p xs)
survives p [] v h n = absurd h
survives p (x ∷ xs) v (inl e) n = let keeps : p x ≡ false = ap p e ∙ n in rw keeps (inl e)
survives p (x ∷ xs) v (inr h) n = elim (Bool-cases (p x)) [
  | inl e ↦ rw e (survives p xs v h n)
  | inr m ↦ rw m (inr (survives p xs v h n))
]

-- A pass over the Secrets keeps every Secret of a run that has its row, whatever calls fail, every
-- Secret without the label of a run, and every Secret outside the tenants' namespaces.
gc_orphan_secrets_keeps :
    (x : Sweep) (runs : List RunRow) (secrets : List (Held KubeSecret)) (s : Held KubeSecret)
    → In s secrets
    → (any (λ r. same r.id (run_of s.object)) runs ≡ true)
      ⊎ ((run_of s.object ≡ []) ⊎ (in_tenant s.namespace ≡ false))
    → In s (gc_orphan_secrets x runs secrets)
unfolding gc_orphan_secrets
gc_orphan_secrets_keeps x runs secrets s h safe = elim (Bool-cases x.namespaces_ok) [
  | inl e ↦ rw e (
      survives (is_orphan x runs) secrets s h
        (ground (arith, safe, is_empty_iff (run_of s.object))))
  | inr n ↦ rw n h
]

-- A pass over the Jobs keeps every Job that has not completed, or has completed after the cutoff,
-- and every Job outside the tenants' namespaces.
gc_jobs_keeps :
    (x : Sweep) (job_ttl : ℕ) (jobs : List (Held Job)) (j : Held Job)
    → In j jobs
    → (is_old (x.now - job_ttl) j.object.status.completion_time ≡ false)
      ⊎ (in_tenant j.namespace ≡ false)
    → In j (gc_jobs x job_ttl jobs)
unfolding gc_jobs
gc_jobs_keeps x job_ttl jobs j h safe = elim (Bool-cases x.namespaces_ok) [
  | inl e ↦ rw e (survives (is_swept x job_ttl) jobs j h (ground (arith, safe)))
  | inr n ↦ rw n h
]

-- A namespace of no tenant
abbrev pub IsOutside : Text → Type 0
IsOutside ns = (rest : Text) → ns ≢ txt "tenant-" ++ rest

-- The Secret is of a run in the table, or of no run, or stands outside the tenants' namespaces.
abbrev pub IsNeeded : List RunRow → Held KubeSecret → Type 0
IsNeeded runs s =
    ((r : RunRow) × In r runs × (lookup run_label s.object.labels ≡ some r.id))
    ⊎ ((lookup run_label s.object.labels ≡ none) ⊎ IsOutside s.namespace)

-- The Job has not completed, or completed less than the TTL ago, or stands outside the tenants'
-- namespaces.
abbrev pub IsRecent : ℕ → ℕ → Held Job → Type 0
IsRecent now ttl b =
    (b.object.status.completion_time ≡ none)
    ⊎ (((t : ℕ) × (b.object.status.completion_time ≡ some t) × (now < t + ttl))
        ⊎ IsOutside b.namespace)

outside_tenant : (ns : Text) → IsOutside ns → in_tenant ns ≡ false
outside_tenant ns h = elim (Option-cases (cut_prefix (txt "tenant-") ns)) [
  | inl e ↦ rw e refl
  | inr (rest, e) ↦ absurd (h rest (cut_prefix→eq (txt "tenant-") ns rest e))
]

has_row :
    (id : Text) (r : RunRow) (runs : List RunRow)
    → In r runs
    → id ≡ r.id
    → any (λ x. same x.id id) runs ≡ true
has_row id r [] h e = absurd h
has_row id r (x ∷ runs) (inl q) e =
    let hit : same x.id id ≡ true = (same_iff x.id id).1 (ap (λ z. z.id) q ∙ sym e) in rw hit refl
has_row id r (x ∷ runs) (inr h) e = ground (arith, has_row id r runs h e)

needed_lem :
    (runs : List RunRow) (s : Held KubeSecret)
    → IsNeeded runs s
    → (any (λ r. same r.id (run_of s.object)) runs ≡ true)
      ⊎ ((run_of s.object ≡ []) ⊎ (in_tenant s.namespace ≡ false))
needed_lem runs s (inl (r, h, e)) = inl (has_row (run_of s.object) r runs h (ap label_of e))
needed_lem runs s (inr (inl e)) = inr (inl (ap label_of e))
needed_lem runs s (inr (inr out)) = inr (inr (outside_tenant s.namespace out))

recent_lem :
    (now ttl : ℕ) (b : Held Job)
    → ttl < now
    → IsRecent now ttl b
    → (is_old (now - ttl) b.object.status.completion_time ≡ false) ⊎ (in_tenant b.namespace ≡ false)
recent_lem now ttl b past (inl e) = inl (ap (is_old (now - ttl)) e)
recent_lem now ttl b past (inr (inl (t, e, lt))) =
    let young : is_old (now - ttl) (some t) ≡ false = ground (arith, lt) in
    inl (ap (is_old (now - ttl)) e ∙ young)
recent_lem now ttl b past (inr (inr out)) = inr (outside_tenant b.namespace out)

-- Whatever calls fail, a tick keeps every Secret that is labelled with a run in the runs table, has
-- no label of a run, or stands in a namespace without the prefix of the tenants' ones; and every Job
-- that has not completed, completed less than the TTL ago, or stands in such a namespace. The clock
-- is past the TTL.
pub tick_keeps :
    (j : Settings) (c : Calls) (e : Estate) (s : Held KubeSecret) (b : Held Job)
    → j.job_ttl < c.sweep.now
    → In s e.secrets
    → IsNeeded e.runs s
    → In b e.jobs
    → IsRecent c.sweep.now j.job_ttl b
    → In s (tick j c e).secrets × In b (tick j c e).jobs
unfolding tick
tick_keeps j c e s b past hs needed hb recent = (
  gc_orphan_secrets_keeps c.sweep e.runs e.secrets s hs (needed_lem e.runs s needed),
  gc_jobs_keeps c.sweep j.job_ttl e.jobs b hb (recent_lem c.sweep.now j.job_ttl b past recent),
)
