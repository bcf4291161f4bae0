-- ===== src/Usage/Unique.antt =====
-- Metering rows are unique per run and kind, and their ids come from the sequence.
use ai_lab.Prelude.{
  ℕ, suc, ◌+◌, ◌≤◌, ◌<◌, ◌≡◌, refl, inl, inr, Bool, true, false, ◌&&◌, List, [], ◌∷◌, ◌++◌, arith,
  if◌then◌else◌, Bool-cases, All, Text, same, same→eq, any, All-append, All-map, same_refl, sym, ap,
  insert_asc_last,
}
use ai_lab.Usage.{
  Kind, same_kind, Quantity, UsageRow, UsageTable, is_for, record_run, run_row, draw_id, commit_run,
}

-- How many rows the index holds for a run and a kind.
abbrev pub metered : Text → Kind → List UsageRow → ℕ
metered run_id kind [] = 0
metered run_id kind (u ∷ us) =
    let rest = metered run_id kind us in if is_for run_id kind u then suc rest else rest

-- What the unique index and the sequence enforce.
pub record IsValid (t : UsageTable) : Type 0 where
  pub unique : (run_id : Text) (kind : Kind) → metered run_id kind t.rows ≤ 1
  pub below_next : All (λ u. u.id < t.next_id) t.rows

metered-append :
    (run_id : Text) (kind : Kind) (us vs : List UsageRow)
    → metered run_id kind (us ++ vs) ≡ metered run_id kind us + metered run_id kind vs
metered-append run_id kind [] vs = omega arith
metered-append run_id kind (u ∷ us) vs = ground (arith, metered-append run_id kind us vs)

metered-zero :
    (run_id : Text) (kind : Kind) (us : List UsageRow)
    → any (is_for run_id kind) us ≡ false
    → metered run_id kind us ≡ 0
metered-zero run_id kind [] h = refl
metered-zero run_id kind (u ∷ us) h = ground (arith, metered-zero run_id kind us)

metered-pos :
    (run_id : Text) (kind : Kind) (us : List UsageRow)
    → any (is_for run_id kind) us ≡ true
    → 0 < metered run_id kind us
metered-pos run_id kind [] h = cc
metered-pos run_id kind (u ∷ us) h = ground (arith, metered-pos run_id kind us)

same_kind→eq : (a b : Kind) → same_kind a b ≡ true → a ≡ b
same_kind→eq a b h = ground arith

same_kind_refl : (a : Kind) → same_kind a a ≡ true
same_kind_refl a = ground arith

any-append :
    (p : UsageRow → Bool) (us : List UsageRow) (u : UsageRow)
    → p u ≡ true
    → any p (us ++ u ∷ []) ≡ true
any-append p [] u h = ground arith
any-append p (v ∷ us) u h = ground (arith, any-append p us u h)

any-append_left :
    (p : UsageRow → Bool) (us : List UsageRow) (u : UsageRow)
    → any p us ≡ true
    → any p (us ++ u ∷ []) ≡ true
any-append_left p [] u h = cc
any-append_left p (v ∷ us) u h = ground (arith, any-append_left p us u)

metered_no_longer_zero :
    (run_id run_id' : Text) (kind kind' : Kind) (us : List UsageRow)
    → any (is_for run_id kind) us ≡ false
    → (same run_id run_id' && same_kind kind kind') ≡ true
    → metered run_id' kind' us ≡ 0
metered_no_longer_zero run_id run_id' kind kind' us h e =
    let r : run_id ≡ run_id' = same→eq run_id run_id' (ground arith) in
    let k : kind ≡ kind' = same_kind→eq kind kind' (ground arith) in
    rw (← r, ← k) (metered-zero run_id kind us h)

below_later : (n : ℕ) (us : List UsageRow) → All (λ u. u.id < n) us → All (λ u. u.id < n + 1) us
below_later n us h = All-map (λ u (k : u.id < n). omega arith) us h

module _ (tenant_id agent_id run_id : Text) (kind : Kind) (quantity : Quantity) (at : ℕ) where
  abbrev pub recorded : UsageTable → UsageTable
  recorded t = record_run tenant_id agent_id run_id kind quantity at t

  pub record_run_old :
      (t : UsageTable) → any (is_for run_id kind) t.rows ≡ true → (recorded t).rows ≡ t.rows
  unfolding record_run
  record_run_old t h = rw h

  record_run_new :
      (t : UsageTable)
      → any (is_for run_id kind) t.rows ≡ false
      → (recorded t).rows
        ≡ t.rows ++ run_row tenant_id agent_id run_id kind quantity at t.next_id ∷ []
  unfolding record_run
  record_run_new t h = rw h

  next_id-record_run : (t : UsageTable) → (recorded t).next_id ≡ t.next_id + 1
  unfolding record_run
  next_id-record_run t = ground arith

  metered-new :
      (run' : Text) (kind' : Kind) (t : UsageTable)
      → any (is_for run_id kind) t.rows ≡ false
      → metered run' kind' (recorded t).rows
        ≡ metered run' kind' t.rows + (if same run_id run' && same_kind kind kind' then 1 else 0)
  metered-new run' kind' t h = rw (record_run_new t h) (
      ground (
        arith,
        metered-append run' kind' t.rows
            (run_row tenant_id agent_id run_id kind quantity at t.next_id ∷ []),
      ))

  unique_after :
      (t : UsageTable)
      → IsValid t
      → (run' : Text) (kind' : Kind) → metered run' kind' (recorded t).rows ≤ 1
  unique_after t v run' kind' = elim (Bool-cases (any (is_for run_id kind) t.rows)) [
    | inl old ↦ rw (record_run_old t old) (v.unique run' kind')
    | inr new ↦ rw (metered-new run' kind' t new) (
        ground
          (arith, v.unique run' kind', metered_no_longer_zero run_id run' kind kind' t.rows new))
  ]

  below_after : (t : UsageTable) → IsValid t → All (λ u. u.id < t.next_id + 1) (recorded t).rows
  below_after t v = elim (Bool-cases (any (is_for run_id kind) t.rows)) [
    | inl old ↦ rw (record_run_old t old) (below_later t.next_id t.rows v.below_next)
    | inr new ↦ rw (record_run_new t new) (
        All-append (λ u. u.id < t.next_id + 1) t.rows
          (run_row tenant_id agent_id run_id kind quantity at t.next_id ∷ [])
          (below_later t.next_id t.rows v.below_next) (omega arith, tt))
  ]

  -- Recording a run keeps the index unique per run and kind, and every id below the sequence.
  pub record_run-IsValid :
      (t : UsageTable)
      → IsValid t
      → IsValid (record_run tenant_id agent_id run_id kind quantity at t)
  record_run-IsValid t v = record {
    unique = unique_after t v;
    below_next = rw (next_id-record_run t) (below_after t v);
  }

  -- A run recorded in a valid table is metered exactly once for that kind.
  pub metered-record_run :
      (t : UsageTable)
      → IsValid t
      → metered run_id kind (record_run tenant_id agent_id run_id kind quantity at t).rows ≡ 1
  metered-record_run t v = elim (Bool-cases (any (is_for run_id kind) t.rows)) [
    | inl old ↦
        rw (record_run_old t old)
          (omega (arith, metered-pos run_id kind t.rows old, v.unique run_id kind))
    | inr new ↦
        rw (metered-new run_id kind t new) (
          ground
            (arith, same_refl run_id, same_kind_refl kind, metered-zero run_id kind t.rows new))
  ]

  pub any_kept :
      (run' : Text) (kind' : Kind) (t : UsageTable)
      → any (is_for run' kind') t.rows ≡ true
      → any (is_for run' kind') (recorded t).rows ≡ true
  any_kept run' kind' t h = elim (Bool-cases (any (is_for run_id kind) t.rows)) [
    | inl old ↦ rw (record_run_old t old) h
    | inr new ↦ rw (record_run_new t new) (
        any-append_left (is_for run' kind') t.rows
          (run_row tenant_id agent_id run_id kind quantity at t.next_id) h)
  ]

  pub any-recorded : (t : UsageTable) → any (is_for run_id kind) (recorded t).rows ≡ true
  any-recorded t = elim (Bool-cases (any (is_for run_id kind) t.rows)) [
    | inl old ↦ rw (record_run_old t old) old
    | inr new ↦ rw (record_run_new t new) (
        any-append (is_for run_id kind) t.rows
          (run_row tenant_id agent_id run_id kind quantity at t.next_id)
          (ground (arith, same_refl run_id, same_kind_refl kind)))
  ]

-- Recording a run and kind again, with any quantity and time, adds no row.
pub record_run-record_run :
    (tenant_id agent_id run_id : Text) (kind : Kind) (quantity quantity' : Quantity) (at at' : ℕ)
    (t : UsageTable)
    → (record_run tenant_id agent_id run_id kind quantity' at'
        (record_run tenant_id agent_id run_id kind quantity at t)).rows
      ≡ (record_run tenant_id agent_id run_id kind quantity at t).rows
record_run-record_run tenant_id agent_id run_id kind quantity quantity' at at' t =
    record_run_old tenant_id agent_id run_id kind quantity' at'
      (record_run tenant_id agent_id run_id kind quantity at t)
      (any-recorded tenant_id agent_id run_id kind quantity at t)

-- An insertion with no other one between its two moments draws the id and commits under it.
pub record_run_moments :
    (tenant_id agent_id run_id : Text) (kind : Kind) (quantity : Quantity) (at : ℕ) (t : UsageTable)
    → All (λ u. u.id < t.next_id) t.rows
    → record_run tenant_id agent_id run_id kind quantity at t
      ≡ commit_run tenant_id agent_id run_id kind quantity at t.next_id (draw_id t)
unfolding record_run commit_run draw_id
record_run_moments tenant_id agent_id run_id kind quantity at t below =
    elim (Bool-cases (any (is_for run_id kind) t.rows)) [
      | inl e ↦ rw e refl
      | inr n ↦ rw n (
          ap (λ rows. put rows)
            (sym (
              insert_asc_last (λ u. u.id)
                (run_row tenant_id agent_id run_id kind quantity at t.next_id) t.rows below)))
    ]
  where
    put : List UsageRow → UsageTable
    put rows = record { rows = rows; next_id = t.next_id + 1 }
