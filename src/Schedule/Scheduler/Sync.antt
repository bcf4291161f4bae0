-- ===== src/Schedule/Scheduler/Sync.antt =====
-- What the scheduler has registered with the cron library is what the library fires.
use ai_lab.Prelude.{
  Text, ℕ, ◌≡◌, subst, sym, ◌∙◌, ◌≢◌, inl, inr, Option, none, some, List, Bool-cases, same, lookup,
  insert, refl, false, [], ◌∷◌, arith, All, same→eq, same_iff, lookup-insert, lookup-insert_self,
  ap, true, ◌==◌,
}
use ai_lab.Schedule.{Trigger}
use ai_lab.Schedule.Scheduler.{
  Cron, Registered, checksum, Scheduler, added, add_row, refresh_row, refresh_rows,
}

-- What the cron library documents: AddFunc makes one new entry under a fresh id, Remove takes one
-- away, and neither touches another. An entry is shown as the row that its function fires.
pub record IsCron (k : Cron) : Type 0 where
  pub entry_at : k.C → ℕ → Option Trigger
  pub adds :
      (t : Trigger) (c c' : k.C) (i : ℕ)
      → k.add_func t c ≡ some (c', i)
      → (entry_at c i ≡ none)
        × (entry_at c' i ≡ some t)
        × ((j : ℕ) → j ≢ i → entry_at c' j ≡ entry_at c j)
  pub removes :
      (i : ℕ) (c : k.C)
      → (entry_at (k.remove i c) i ≡ none)
        × ((j : ℕ) → j ≢ i → entry_at (k.remove i c) j ≡ entry_at c j)

kept_lookup :
    {V : Type 0} (id k : Text) (v : V) (m : List (Text × V))
    → id ≢ k
    → lookup id (insert k v m) ≡ lookup id m
kept_lookup id k v m apart = elim (Bool-cases (same k id)) [
  | inl q ↦ absurd (apart (sym (same→eq k id q)))
  | inr n ↦ lookup-insert k id v m ∙ rw n refl
]

module _ (k : Cron) (law : IsCron k) (sha256 : Text → Text) where
  -- What is registered under an id fires a row of that id and with that checksum.
  abbrev pub Fires : k.C → Text → Registered → Type 0
  Fires c id cur =
      (t : Trigger) × (law.entry_at c cur.entry_id ≡ some t)
      × (t.id ≡ id)
      × (cur.checksum ≡ checksum k sha256 t)

  -- An entry of the library is the one that is registered under the id of its row.
  abbrev pub IsOwned : List (Text × Registered) → ℕ → Trigger → Type 0
  IsOwned registered j t =
      (cur : Registered) × (lookup t.id registered ≡ some cur) × (cur.entry_id ≡ j)

  -- What is registered fires, and nothing else does.
  pub record IsSynced (s : Scheduler k sha256) : Type 0 where
    pub fires :
        (id : Text) (cur : Registered) → lookup id s.registered ≡ some cur → Fires s.cron id cur
    pub owned : (j : ℕ) (t : Trigger) → law.entry_at s.cron j ≡ some t → IsOwned s.registered j t

  -- An entry of one id is kept by what concerns another id.
  pub kept :
      (c : k.C) (id other : Text) (cur cur' : Registered)
      → Fires c id cur
      → Fires c other cur'
      → id ≢ other
      → Fires (k.remove cur.entry_id c) other cur'
  kept c id other cur cur' (t, at, named, sum) (t', at', named', sum') apart =
      let differ : cur'.entry_id ≢ cur.entry_id = λ e.
        apart (sym named ∙ (one_id at (subst (λ i. law.entry_at c i ≡ some t') e at') ∙ named')) in
      (t', (law.removes cur.entry_id c).1 cur'.entry_id differ ∙ at', named', sum')
    where
      one_id : {o : Option Trigger} → o ≡ some t → o ≡ some t' → t.id ≡ t'.id
      one_id p q = cc

  kept_by_add :
      (t : Trigger) (c c' : k.C) (i : ℕ) (other : Text) (cur : Registered)
      → k.add_func t c ≡ some (c', i)
      → Fires c other cur
      → Fires c' other cur
  kept_by_add t c c' i other cur e (t', at, named, sum) =
      let (fresh, new, same_else) = law.adds t c c' i e in
      let differ : cur.entry_id ≢ i =
        λ q. absurd (clash (subst (λ j. law.entry_at c j ≡ some t') q at) fresh) in
      (t', same_else cur.entry_id differ ∙ at, named, sum)
    where
      clash : {o : Option Trigger} → o ≡ some t' → o ≡ none → ⊥
      clash p q = cc

  -- An added row, over entries of the other ids.
  added-Fires :
      (t : Trigger) (c c' : k.C) (i : ℕ) (registered : List (Text × Registered))
      → k.add_func t c ≡ some (c', i)
      → ((id : Text) (cur : Registered)
          → id ≢ t.id
          → lookup id registered ≡ some cur
          → Fires c id cur)
      → (id : Text) (cur : Registered)
      → lookup id (insert t.id (record { entry_id = i; checksum = checksum k sha256 t }) registered)
        ≡ some cur
      → Fires c' id cur
  added-Fires t c c' i registered e others id cur found = elim (Bool-cases (same t.id id)) [
    | inl q ↦
        let new : Registered = record { entry_id = i; checksum = checksum k sha256 t } in
        let at_key : lookup id (insert t.id new registered) ≡ some new =
          lookup-insert t.id id new registered ∙ rw q refl in
        let now : new ≡ cur = cc in
        subst (Fires c' id) now (t, (law.adds t c c' i e).1, same→eq t.id id q, refl)
    | inr n ↦
        let new : Registered = record { entry_id = i; checksum = checksum k sha256 t } in
        let before : lookup id (insert t.id new registered) ≡ lookup id registered =
          lookup-insert t.id id new registered ∙ rw n refl in
        kept_by_add t c c' i id cur e
          (others id cur (λ z. absurd (differ id (sym z) n)) (sym before ∙ found))
  ]
    where
      differ : (id : Text) → t.id ≡ id → same t.id id ≡ false → ⊥
      differ id z n = ground (arith, (same_iff t.id id).1 z)

  -- Entries of other ids that are registered.
  abbrev pub Others : Trigger → k.C → List (Text × Registered) → Type 0
  Others t c registered =
      (j : ℕ) (u : Trigger) → law.entry_at c j ≡ some u → (u.id ≢ t.id) × IsOwned registered j u

  added-IsOwned :
      (t : Trigger) (c c' : k.C) (i : ℕ) (registered : List (Text × Registered))
      → k.add_func t c ≡ some (c', i)
      → Others t c registered
      → (j : ℕ) (u : Trigger) → law.entry_at c' j ≡ some u
      → IsOwned
          (insert t.id (record { entry_id = i; checksum = checksum k sha256 t }) registered)
          j
          u
  added-IsOwned t c c' i registered e others j u at =
      let (fresh, new_at, same_else) = law.adds t c c' i e in
      let new : Registered = record { entry_id = i; checksum = checksum k sha256 t } in
      elim (Bool-cases (j == i)) [
        | inl q ↦
            let here : j ≡ i = ground (arith, q) in
            let own : t ≡ u = one_row (subst (λ z. law.entry_at c' z ≡ some u) here at) new_at in
            subst (λ z. IsOwned (insert t.id new registered) j z) own
              (new, lookup-insert_self t.id new registered, sym here)
        | inr n ↦
            let apart : j ≢ i = λ z. ground (arith, z, n) in
            let (differ, here) = others j u (sym (same_else j apart) ∙ at) in
            let (cur, found, own) = here in
            (cur, kept_lookup u.id t.id new registered differ ∙ found, own)
      ]
    where
      one_row : {o : Option Trigger} → o ≡ some u → o ≡ some t → t ≡ u
      one_row p q = cc

  -- The library takes the expression of a row, whatever it holds.
  abbrev pub IsAccepted : Trigger → Type 0
  IsAccepted t = (c : k.C) → (c' : k.C) × (i : ℕ) × (k.add_func t c ≡ some (c', i))

  -- The row is registered as it is.
  abbrev pub IsUpToDate : Scheduler k sha256 → Trigger → Type 0
  IsUpToDate s t =
      (cur : Registered) × (lookup t.id s.registered ≡ some cur)
      × (cur.checksum ≡ checksum k sha256 t)

  abbrev pub IsRefreshed : Trigger → Scheduler k sha256 → Type 0
  IsRefreshed t s = IsSynced s × IsUpToDate s t

  add_row-IsRefreshed :
      (t : Trigger) (s : Scheduler k sha256)
      → IsAccepted t
      → ((id : Text) (cur : Registered)
          → id ≢ t.id
          → lookup id s.registered ≡ some cur
          → Fires s.cron id cur)
      → Others t s.cron s.registered
      → IsRefreshed t (add_row k sha256 t s)
  add_row-IsRefreshed t s takes others owners =
      let (c', i, e) = takes s.cron in
      subst (λ o. IsRefreshed t (added k sha256 t o s)) (sym e)
        (
          record {
            fires = added-Fires t s.cron c' i s.registered e others;
            owned = added-IsOwned t s.cron c' i s.registered e owners;
          },
          (
            record { entry_id = i; checksum = checksum k sha256 t },
            lookup-insert_self t.id _ s.registered,
            refl,
          ),
        )

  unregistered :
      (t : Trigger) (s : Scheduler k sha256)
      → lookup t.id s.registered ≡ none
      → IsSynced s
      → Others t s.cron s.registered
  unregistered t s e h j u at =
      let (cur, found, own) = h.owned j u at in
      (λ z. clash (ap (λ i. lookup i s.registered) z ∙ e) found, (cur, found, own))
    where
      clash : {o : Option Registered} {cur : Registered} → o ≡ none → o ≡ some cur → ⊥
      clash p q = cc

  pub removed-Others :
      (t : Trigger) (cur : Registered) (s : Scheduler k sha256)
      → lookup t.id s.registered ≡ some cur
      → IsSynced s
      → Others t (k.remove cur.entry_id s.cron) s.registered
  removed-Others t cur s e h j u at = elim (Bool-cases (j == cur.entry_id)) [
    | inl q ↦
        let here : j ≡ cur.entry_id = ground (arith, q) in
        absurd (
          clash (subst (λ z. law.entry_at (k.remove cur.entry_id s.cron) z ≡ some u) here at)
            (law.removes cur.entry_id s.cron).0)
    | inr n ↦
        let apart : j ≢ cur.entry_id = λ z. ground (arith, z, n) in
        let (c, found, own) =
          h.owned j u (sym ((law.removes cur.entry_id s.cron).1 j apart) ∙ at) in
        (
          λ z. apart (
              sym own
              ∙ ap (λ r. r.entry_id) (one_of (ap (λ i. lookup i s.registered) z ∙ e) found)),
          (c, found, own),
        )
  ]
    where
      clash : {o : Option Trigger} → o ≡ some u → o ≡ none → ⊥
      clash p q = cc

      one_of : {o : Option Registered} {c : Registered} → o ≡ some cur → o ≡ some c → c ≡ cur
      one_of p q = cc

  refresh_row-IsRefreshed :
      (t : Trigger) (o : Option Registered) (s : Scheduler k sha256)
      → lookup t.id s.registered ≡ o
      → IsAccepted t
      → IsSynced s
      → IsRefreshed t (refresh_row k sha256 t o s)
  refresh_row-IsRefreshed t none s e takes h =
      add_row-IsRefreshed t s takes (λ id cur apart found. h.fires id cur found)
        (unregistered t s e h)
  refresh_row-IsRefreshed t (some cur) s e takes h =
      elim (Bool-cases (same cur.checksum (checksum k sha256 t))) [
        | inl q ↦ rw q (h, (cur, e, same→eq cur.checksum (checksum k sha256 t) q))
        | inr n ↦ rw n (
            add_row-IsRefreshed t (record s { cron = k.remove cur.entry_id s.cron }) takes
              (λ id other apart found.
                kept s.cron t.id id cur other (h.fires t.id cur e) (h.fires id other found)
                  (λ z. apart (sym z)))
              (removed-Others t cur s e h))
      ]

  lookup-add_row :
      (id : Text) (t : Trigger) (s : Scheduler k sha256)
      → id ≢ t.id
      → lookup id (add_row k sha256 t s).registered ≡ lookup id s.registered
  lookup-add_row id t s apart = of (k.add_func t s.cron)
    where
      of :
          (o : Option (k.C × ℕ))
          → lookup id (added k sha256 t o s).registered ≡ lookup id s.registered
      of none = refl
      of (some (c, i)) = kept_lookup id t.id _ s.registered apart

  -- A row leaves what is registered under the other ids.
  lookup-refresh_row :
      (id : Text) (t : Trigger) (o : Option Registered) (s : Scheduler k sha256)
      → id ≢ t.id
      → lookup id (refresh_row k sha256 t o s).registered ≡ lookup id s.registered
  lookup-refresh_row id t none s apart = lookup-add_row id t s apart
  lookup-refresh_row id t (some cur) s apart =
      elim (Bool-cases (same cur.checksum (checksum k sha256 t))) [
        | inl q ↦ rw q refl
        | inr n ↦
            rw n (lookup-add_row id t (record s { cron = k.remove cur.entry_id s.cron }) apart)
      ]

  -- The ids of rows are distinct, as the primary key has it.
  abbrev pub AreKeyed : List Trigger → Type 0
  AreKeyed [] = Unit
  AreKeyed (t ∷ ts) = All (λ u. t.id ≢ u.id) ts × AreKeyed ts

  refresh_rows-IsUpToDate :
      (t : Trigger) (ts : List Trigger) (s : Scheduler k sha256)
      → All (λ u. t.id ≢ u.id) ts
      → IsUpToDate s t
      → IsUpToDate (refresh_rows k sha256 ts s) t
  refresh_rows-IsUpToDate t [] s apart h = h
  refresh_rows-IsUpToDate t (u ∷ ts) s apart (cur, found, sum) =
      refresh_rows-IsUpToDate t ts (refresh_row k sha256 u (lookup u.id s.registered) s) apart.1
        (cur, lookup-refresh_row t.id u (lookup u.id s.registered) s apart.0 ∙ found, sum)

  -- If what is registered and what the library fires are in step, the first loop of refresh keeps
  -- them so, and brings them up to date: afterwards each id that is registered has one entry, which
  -- fires a row of that id and of the registered checksum; the library has no entry besides; and each
  -- of the rows is registered with its present checksum. The library takes the expression of every
  -- row, and the rows have distinct ids.
  pub refresh_rows-IsSynced :
      (ts : List Trigger) (s : Scheduler k sha256)
      → All IsAccepted ts
      → AreKeyed ts
      → IsSynced s
      → IsSynced (refresh_rows k sha256 ts s) × All (IsUpToDate (refresh_rows k sha256 ts s)) ts
  refresh_rows-IsSynced [] s takes keyed h = (h, tt)
  refresh_rows-IsSynced (t ∷ ts) s takes keyed h =
      let s' = refresh_row k sha256 t (lookup t.id s.registered) s in
      let (synced, now) = refresh_row-IsRefreshed t (lookup t.id s.registered) s refl takes.0 h in
      let (rest, all) = refresh_rows-IsSynced ts s' takes.1 keyed.1 synced in
      (rest, (refresh_rows-IsUpToDate t ts s' keyed.0 now, all))

  -- A row that is registered, is changed to an expression that the library refuses, and is then set
  -- back, is lost: after the two passes the id is registered as before, with the row's checksum, but
  -- the library has no entry under the registered id of the entry.
  pub refused_change_loses_row :
      (t bad : Trigger) (cur : Registered) (s : Scheduler k sha256)
      → lookup t.id s.registered ≡ some cur
      → cur.checksum ≡ checksum k sha256 t
      → bad.id ≡ t.id
      → checksum k sha256 bad ≢ checksum k sha256 t
      → k.add_func bad (k.remove cur.entry_id s.cron) ≡ none
      → let s' = refresh_rows k sha256 (t ∷ []) (refresh_rows k sha256 (bad ∷ []) s) in
        (s'.registered ≡ s.registered) × (law.entry_at s'.cron cur.entry_id ≡ none)
  refused_change_loses_row t bad cur s found sum named apart refused =
      let s1 : Scheduler k sha256 = record s { cron = k.remove cur.entry_id s.cron } in
      let at_bad : lookup bad.id s.registered ≡ some cur =
        ap (λ i. lookup i s.registered) named ∙ found in
      let changed : same cur.checksum (checksum k sha256 bad) ≡ false = differs in
      let unchanged : same cur.checksum (checksum k sha256 t) ≡ true =
        (same_iff cur.checksum (checksum k sha256 t)).1 sum in
      let first : refresh_rows k sha256 (bad ∷ []) s ≡ s1 =
        ap (λ o. refresh_row k sha256 bad o s) at_bad
        ∙ rw changed (ap (λ o. added k sha256 bad o s1) refused) in
      let last : refresh_rows k sha256 (t ∷ []) s1 ≡ s1 =
        ap (λ o. refresh_row k sha256 t o s1) found ∙ rw unchanged refl in
      subst (λ z. (z.registered ≡ s.registered) × (law.entry_at z.cron cur.entry_id ≡ none))
        (sym (ap (refresh_rows k sha256 (t ∷ [])) first ∙ last))
        (refl, (law.removes cur.entry_id s.cron).0)
    where
      differs : same cur.checksum (checksum k sha256 bad) ≡ false
      differs = elim (Bool-cases (same cur.checksum (checksum k sha256 bad))) [
        | inl q ↦ absurd (apart (sym (same→eq cur.checksum (checksum k sha256 bad) q) ∙ sum))
        | inr n ↦ n
      ]
