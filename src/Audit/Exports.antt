-- ===== src/Audit/Exports.antt =====
-- The export of the trail (internal/audit/export.go) against the entries of repo.go.
use ai_lab.Prelude.{
  ℕ, ◌≤◌, ◌<◌, ◌≡◌, ap, ◌⊎◌, inl, inr, true, some, List, [], ◌∷◌, All, Text, In, IsAscendingBy, ◌+◌,
  refl, same, any, sym, ◌≢◌, Bool-cases, insert_asc_last,
}
use ai_lab.Auth.{Identity}
use ai_lab.Audit.{
  Event, scan_event, Archive, Pass, Entry, event_row, log, draw_event_id, commit_event, Trail,
  export_run,
}

-- Some object has the line of the event.
abbrev pub IsStored : Event → List (Text × List Event) → Type 0
IsStored e [] = ⊥
IsStored e ((k, lines) ∷ objects) = In (scan_event e) lines ⊎ IsStored e objects

pub record IsArchived (s : Archive) : Type 0 where
  pub ascending : IsAscendingBy (λ v. v.id) s.trail.events
  pub below_next : All (λ v. v.id < s.trail.next_id) s.trail.events
  pub behind : (k : ℕ) → s.last_event_id ≡ some k → k < s.trail.next_id
  pub covered :
      (k : ℕ) → s.last_event_id ≡ some k → All (λ v. v.id ≤ k → IsStored v s.objects) s.trail.events

-- What changes the archive: a pass of the exporter, and the two moments of an insertion, between which
-- anything else may happen.
pub data Step : Type 0 where
  exports : ℕ → Pass → Step
  draws : Step
  commits : Identity → Entry → ℕ → Step

abbrev pub step : Step → Archive → Archive
step (exports n x) s = (export_run n x s).0
step draws s = record s { trail = draw_event_id s.trail }
step (commits i e id) s = record s { trail = commit_event i e id s.trail }

abbrev pub steps : List Step → Archive → Archive
steps [] s = s
steps (a ∷ rest) s = steps rest (step a s)

-- An entry commits in time: its id was drawn and is not in use, and the checkpoint has not passed it.
abbrev pub InTime : Step → Archive → Type 0
InTime (exports n x) s = Unit
InTime draws s = Unit
InTime (commits i e id) s =
    (id < s.trail.next_id)
    × All (λ v. v.id ≢ id) s.trail.events
    × ((k : ℕ) → s.last_event_id ≡ some k → k < id)

abbrev pub AllInTime : List Step → Archive → Type 0
AllInTime [] s = Unit
AllInTime (a ∷ rest) s = InTime a s × AllInTime rest (step a s)

-- An insertion with no other one between its two moments draws the id and commits under it.
log_moments :
    (i : Identity) (e : Entry) (t : Trail)
    → e.served ≡ true
    → All (λ v. v.id < t.next_id) t.events
    → log (some i) e t ≡ commit_event i e t.next_id (draw_event_id t)
unfolding log commit_event draw_event_id
log_moments i e t served below = elim (Bool-cases (any (same i.tenant_id) t.tenants)) [
  | inl known ↦
      rw (served, known)
        (ap (λ rows. put rows)
          (sym (insert_asc_last (λ v. v.id) (event_row i e t.next_id) t.events below)))
  | inr n ↦ rw (served, n) refl
]
  where
    put : List Event → Trail
    put rows = record t { events = rows; next_id = t.next_id + 1 }
