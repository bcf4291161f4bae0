-- ===== src/Schedule/Scheduler/Sweep.antt =====
-- The whole of refresh: the loop over the rows and the removal of what has no row (cmd/triggers/main.go).
use ai_lab.Prelude.{
  Text, ℕ, ◌≡◌, ◌≢◌, refl, sym, ◌∙◌, ap, subst, ◌⊎◌, inl, inr, true, false, Option, none, some,
  List, [], ◌∷◌, arith, All, All-map, All-and, Bool-cases, same, same→eq, same_iff, any, lookup,
  insert, delete, lookup-delete, In, lookup-cons_self, if◌then◌else◌,
}
use ai_lab.Schedule.{Trigger}
use ai_lab.Schedule.Scheduler.{
  Cron, Registered, Scheduler, checksum, added, refresh_row, refresh_rows, sweep, ids_of, refreshed,
  refresh,
}
use ai_lab.Schedule.Scheduler.Sync.{
  IsCron, Fires, IsOwned, IsSynced, kept, removed-Others, IsAccepted, IsUpToDate, AreKeyed,
  refresh_rows-IsSynced,
}

-- The keys of a Go map are distinct.
abbrev pub IsMap : List (Text × Registered) → Type 0
IsMap [] = Unit
IsMap ((id, cur) ∷ m) = (lookup id m ≡ none) × IsMap m

lookup-insert_absent :
    (id j : Text) (v : Registered) (m : List (Text × Registered))
    → lookup j m ≡ none
    → same id j ≡ false
    → lookup j (insert id v m) ≡ none
unfolding lookup insert
lookup-insert_absent id j v [] h n = ground (arith, n)
lookup-insert_absent id j v ((i, w) ∷ m) h n =
    ground (arith, lookup-insert_absent id j v m, same→eq i id, same→eq i j)

insert-IsMap :
    (id : Text) (v : Registered) (m : List (Text × Registered)) → IsMap m → IsMap (insert id v m)
unfolding lookup insert
insert-IsMap id v [] h = (refl, tt)
insert-IsMap id v ((j, w) ∷ m) h = elim (Bool-cases (same j id)) [
  | inl e ↦ rw e h
  | inr n ↦ rw n (
    lookup-insert_absent id j v m h.0
        (ground (arith, n, same_iff j id, same_iff id j, same→eq id j)),
    insert-IsMap id v m h.1,
  )
]

module _ (k : Cron) (law : IsCron k) (sha256 : Text → Text) where
  refresh_row-IsMap :
      (t : Trigger) (o : Option Registered) (s : Scheduler k sha256)
      → IsMap s.registered
      → IsMap (refresh_row k sha256 t o s).registered
  refresh_row-IsMap t none s h = put (k.add_func t s.cron)
    where
      put : (o : Option (k.C × ℕ)) → IsMap (added k sha256 t o s).registered
      put none = h
      put (some (c, i)) = insert-IsMap t.id _ s.registered h
  refresh_row-IsMap t (some cur) s h = elim (Bool-cases (same cur.checksum (checksum k sha256 t))) [
    | inl q ↦ rw q h
    | inr n ↦ rw n (put (k.add_func t (k.remove cur.entry_id s.cron)))
  ]
    where
      put :
          (o : Option (k.C × ℕ))
          → IsMap (added k sha256 t o (record s { cron = k.remove cur.entry_id s.cron })).registered
      put none = h
      put (some (c, i)) = insert-IsMap t.id _ s.registered h

  refresh_rows-IsMap :
      (ts : List Trigger) (s : Scheduler k sha256)
      → IsMap s.registered
      → IsMap (refresh_rows k sha256 ts s).registered
  refresh_rows-IsMap [] s h = h
  refresh_rows-IsMap (t ∷ ts) s h =
      refresh_rows-IsMap ts _ (refresh_row-IsMap t (lookup t.id s.registered) s h)

  abbrev dropped : Text → Registered → Scheduler k sha256 → Scheduler k sha256
  dropped id cur s = record {
    cron = k.remove cur.entry_id s.cron;
    registered = delete id s.registered;
  }

  still :
      (id j : Text) (s : Scheduler k sha256)
      → id ≢ j
      → lookup j (delete id s.registered) ≡ lookup j s.registered
  still id j s apart = elim (Bool-cases (same id j)) [
    | inl q ↦ absurd (apart (same→eq id j q))
    | inr n ↦ lookup-delete id j s.registered ∙ rw n refl
  ]

  gone : (id : Text) (s : Scheduler k sha256) → lookup id (delete id s.registered) ≡ none
  gone id s =
      let own : same id id ≡ true = (same_iff id id).1 refl in
      lookup-delete id id s.registered ∙ rw own refl

  -- An id and its entry go together.
  dropped-IsSynced :
      (id : Text) (cur : Registered) (s : Scheduler k sha256)
      → lookup id s.registered ≡ some cur
      → IsSynced k law sha256 s
      → IsSynced k law sha256 (dropped id cur s)
  dropped-IsSynced id cur s at h = record {
    fires = λ j other found.
        let apart : id ≢ j = differ j other found in
        kept k law sha256 s.cron id j cur other (h.fires id cur at)
          (h.fires j other (sym (still id j s apart) ∙ found)) apart;
    owned = λ j u e. owner j u e (h.fires id cur at);
  }
    where
      differ :
          (j : Text) (other : Registered) → lookup j (delete id s.registered) ≡ some other → id ≢ j
      differ j other found q =
          clash (ap (λ z. lookup z (delete id s.registered)) (sym q) ∙ gone id s) found
        where
          clash : {o : Option Registered} → o ≡ none → o ≡ some other → ⊥
          clash p r = cc

      owner :
          (j : ℕ) (u : Trigger)
          → law.entry_at (k.remove cur.entry_id s.cron) j ≡ some u
          → Fires k law sha256 s.cron id cur
          → IsOwned k law sha256 (delete id s.registered) j u
      owner j u e (t, own, named, sum) =
          let (apart, here) =
            removed-Others k law sha256 t cur s (ap (λ z. lookup z s.registered) named ∙ at) h j u
              e in
          let (c, found, entry) = here in
          (c, still id u.id s (λ q. apart (sym q ∙ sym named)) ∙ found, entry)

  -- What the loop has still to look at is registered.
  abbrev Pending : List (Text × Registered) → Scheduler k sha256 → Type 0
  Pending l s = IsMap l × All (λ p. lookup p.0 s.registered ≡ some p.1) l

  abbrev IsSeen : List Text → Text → Type 0
  IsSeen seen id = any (same id) seen ≡ true

  -- What is registered has a row, or is still to be looked at.
  abbrev Known : List Text → List (Text × Registered) → Scheduler k sha256 → Type 0
  Known seen l s =
      (id : Text) (cur : Registered)
      → lookup id s.registered ≡ some cur
      → IsSeen seen id ⊎ (lookup id l ≢ none)

  apart_of : (id : Text) (l : List (Text × Registered)) → lookup id l ≡ none → All (λ p. id ≢ p.0) l
  unfolding lookup
  apart_of id [] h = tt
  apart_of id ((j, c) ∷ l) h = elim (Bool-cases (same j id)) [
    | inl q ↦ absurd (ground (arith, h, q))
    | inr n ↦ (
      λ e. absurd (ground (arith, n, (same_iff j id).1 (sym e))),
      apart_of id l (ground (arith, h, n)),
    )
  ]

  -- What the second loop leaves.
  abbrev Swept : List Text → Scheduler k sha256 → Scheduler k sha256 → Type 0
  Swept seen s s' =
      IsSynced k law sha256 s'
      × ((id : Text) (cur : Registered) → lookup id s'.registered ≡ some cur → IsSeen seen id)
      × ((id : Text) → IsSeen seen id → lookup id s'.registered ≡ lookup id s.registered)

  IsSeen-skip :
      (seen : List Text) (id : Text) (cur : Registered) (l : List (Text × Registered)) (j : Text)
      → any (same id) seen ≡ true
      → IsSeen seen j ⊎ (lookup j ((id, cur) ∷ l) ≢ none)
      → IsSeen seen j ⊎ (lookup j l ≢ none)
  unfolding lookup
  IsSeen-skip seen id cur l j hit (inl x) = inl x
  IsSeen-skip seen id cur l j hit (inr n) = elim (Bool-cases (same id j)) [
    | inl q ↦ inl (subst (IsSeen seen) (same→eq id j q) hit)
    | inr m ↦ inr (λ e. n (rw m e))
  ]

  drop_skip :
      (seen : List Text) (id : Text) (cur : Registered) (l : List (Text × Registered)) (j : Text)
      → id ≢ j
      → IsSeen seen j ⊎ (lookup j ((id, cur) ∷ l) ≢ none)
      → IsSeen seen j ⊎ (lookup j l ≢ none)
  unfolding lookup
  drop_skip seen id cur l j apart (inl x) = inl x
  drop_skip seen id cur l j apart (inr n) = elim (Bool-cases (same id j)) [
    | inl q ↦ absurd (apart (same→eq id j q))
    | inr m ↦ inr (λ e. n (rw m e))
  ]

  registered_apart :
      (id j : Text) (c : Registered) (s : Scheduler k sha256)
      → lookup j (delete id s.registered) ≡ some c
      → id ≢ j
  registered_apart id j c s found q =
      clash (ap (λ z. lookup z (delete id s.registered)) (sym q) ∙ gone id s) found
    where
      clash : {o : Option Registered} → o ≡ none → o ≡ some c → ⊥
      clash p r = cc

  sweep-Swept :
      (seen : List Text) (l : List (Text × Registered)) (s : Scheduler k sha256)
      → IsSynced k law sha256 s
      → Pending l s
      → Known seen l s
      → Swept seen s (sweep k sha256 seen l s)
  unfolding lookup
  sweep-Swept seen [] s h p known = (h, λ id cur f. unlisted id (known id cur f), λ id x. refl)
    where
      unlisted :
          (id : Text) → IsSeen seen id ⊎ (lookup {V = Registered} id [] ≢ none) → IsSeen seen id
      unlisted id (inl x) = x
      unlisted id (inr n) = absurd (n refl)
  sweep-Swept seen ((id, cur) ∷ l) s h p known = elim (Bool-cases (any (same id) seen)) [
    | inl hit ↦
        subst (λ b. Swept seen s (sweep k sha256 seen l (if b then s else dropped id cur s)))
          (sym hit)
          (sweep-Swept seen l s h (p.0.1, p.1.1)
            (λ j c f. IsSeen-skip seen id cur l j hit (known j c f)))
    | inr miss ↦
        let rest =
          sweep-Swept seen l (dropped id cur s) (dropped-IsSynced id cur s p.1.0 h)
            (
              p.0.1,
              All-map (λ q both. still id q.0 s both.0 ∙ both.1) l
                  (All-and _ _ l (apart_of id l p.0.0) p.1.1),
            )
            (λ j c f.
              let apart = registered_apart id j c s f in
              drop_skip seen id cur l j apart (known j c (sym (still id j s apart) ∙ f))) in
        subst (λ b. Swept seen s (sweep k sha256 seen l (if b then s else dropped id cur s)))
          (sym miss) (rest.0, rest.1, λ j x. rest.2 j x ∙ still id j s (λ q. not_seen j x q miss))
  ]
    where
      not_seen : (j : Text) → IsSeen seen j → id ≡ j → any (same id) seen ≡ false → ⊥
      not_seen j x q n = absurd (ground (arith, subst (λ z. any (same z) seen ≡ true) (sym q) x, n))

  self_lookup : (m : List (Text × Registered)) → IsMap m → All (λ p. lookup p.0 m ≡ some p.1) m
  unfolding lookup
  self_lookup [] h = tt
  self_lookup ((id, cur) ∷ m) h = (
    lookup-cons_self id cur m,
    All-map (λ p both. behind p.0 both.0 ∙ both.1) m
        (All-and _ _ m (apart_of id m h.0) (self_lookup m h.1)),
  )
    where
      behind : (j : Text) → id ≢ j → lookup j ((id, cur) ∷ m) ≡ lookup j m
      behind j apart = elim (Bool-cases (same id j)) [
        | inl q ↦ absurd (apart (same→eq id j q))
        | inr n ↦ rw n refl
      ]

  -- An entry is for a row: it fires the row's id, and its expression and agent are the row's, as far
  -- as the checksum tells.
  abbrev pub IsEntryOf : Trigger → Trigger → Type 0
  IsEntryOf t r = (t.id ≡ r.id) × (checksum k sha256 t ≡ checksum k sha256 r)

  -- The library fires the rows and nothing else, each by one entry.
  pub record IsExact (rows : List Trigger) (s : Scheduler k sha256) : Type 0 where
    pub only_rows :
        (j : ℕ) (t : Trigger)
        → law.entry_at s.cron j ≡ some t
        → (r : Trigger) × In r rows × IsEntryOf t r
    pub every_row :
        (r : Trigger)
        → In r rows
        → (j : ℕ) × (t : Trigger) × (law.entry_at s.cron j ≡ some t) × IsEntryOf t r
    pub once :
        (i j : ℕ) (t u : Trigger)
        → law.entry_at s.cron i ≡ some t
        → law.entry_at s.cron j ≡ some u
        → t.id ≡ u.id
        → i ≡ j

  row_of :
      (id : Text) (rows : List Trigger)
      → any (same id) (ids_of k sha256 rows) ≡ true
      → (r : Trigger) × In r rows × (id ≡ r.id)
  row_of id [] h = absurd cc
  row_of id (r ∷ rows) h = elim (Bool-cases (same id r.id)) [
    | inl q ↦ (r, inl refl, same→eq id r.id q)
    | inr n ↦ let (x, there, e) = row_of id rows (ground (arith, h, n)) in (x, inr there, e)
  ]

  row_seen :
      (r : Trigger) (rows : List Trigger)
      → In r rows
      → any (same r.id) (ids_of k sha256 rows) ≡ true
  row_seen r [] h = absurd h
  row_seen r (x ∷ rows) (inl q) =
      let hit : same r.id x.id ≡ true = (same_iff r.id x.id).1 (ap (λ z. z.id) (sym q)) in
      rw hit refl
  row_seen r (x ∷ rows) (inr h) = ground (arith, row_seen r rows h)

  at_row : (P : Trigger → Type 0) (r : Trigger) (rows : List Trigger) → All P rows → In r rows → P r
  at_row P r [] a h = absurd h
  at_row P r (x ∷ rows) a (inl q) = subst P q a.0
  at_row P r (x ∷ rows) a (inr h) = at_row P r rows a.1 h

  one_cur : {o : Option Registered} {c d : Registered} → o ≡ some c → o ≡ some d → c ≡ d
  one_cur p q = cc

  one_entry : {o : Option Trigger} {t u : Trigger} → o ≡ some t → o ≡ some u → t ≡ u
  one_entry p q = cc

  exact :
      (rows : List Trigger) (s : Scheduler k sha256)
      → IsSynced k law sha256 s
      → ((id : Text) (cur : Registered)
          → lookup id s.registered ≡ some cur
          → IsSeen (ids_of k sha256 rows) id)
      → ((r : Trigger) → In r rows → IsUpToDate k law sha256 s r)
      → IsExact rows s
  exact rows s h ended current = record {
    only_rows = λ j t e.
        let (cur, found, own) = h.owned j t e in
        let (r, there, named) = row_of t.id rows (ended t.id cur found) in
        let (cur', found', sum) = current r there in
        let (t', at, named', sum') = h.fires t.id cur found in
        let one : cur ≡ cur' =
          one_cur (ap (λ z. lookup z s.registered) (sym named) ∙ found) found' in
        let fired : t' ≡ t = one_entry (ap (law.entry_at s.cron) (sym own) ∙ at) e in
        (
          r,
          there,
          (
            named,
            ap (checksum k sha256) (sym fired) ∙ (sym sum' ∙ (ap (λ z. z.checksum) one ∙ sum)),
          ),
        );
    every_row = λ r there.
        let (cur, found, sum) = current r there in
        let (t, at, named, sum') = h.fires r.id cur found in
        (cur.entry_id, t, at, (named, sym sum' ∙ sum));
    once = λ i j t u e e' q.
        let (cur, found, own) = h.owned i t e in
        let (cur', found', own') = h.owned j u e' in
        let one : cur ≡ cur' = one_cur (ap (λ z. lookup z s.registered) (sym q) ∙ found) found' in
        sym own ∙ (ap (λ z. z.entry_id) one ∙ own');
  }

  -- A refresh from a state in step leaves a state in step, in which the library fires the rows and
  -- nothing else: each entry is of a row, under the row's id and present checksum, each row has an
  -- entry, and no two entries are of one id. The library takes the expression of every row, the rows
  -- have distinct ids, and so have the keys of registered.
  pub refresh-IsExact :
      (rows : List Trigger) (s : Scheduler k sha256)
      → All (IsAccepted k law sha256) rows
      → AreKeyed k law sha256 rows
      → IsMap s.registered
      → IsSynced k law sha256 s
      → IsSynced k law sha256 (refresh k sha256 (some rows) s).0
        × IsExact rows (refresh k sha256 (some rows) s).0
  unfolding refresh
  refresh-IsExact rows s takes keyed distinct h =
      let s1 = refresh_rows k sha256 rows s in
      let (synced, current) = refresh_rows-IsSynced k law sha256 rows s takes keyed h in
      let map1 = refresh_rows-IsMap rows s distinct in
      let (synced2, ended, same_seen) =
        sweep-Swept (ids_of k sha256 rows) s1.registered s1 synced
          (map1, self_lookup s1.registered map1) (λ id cur f. inr (λ n. clash n f)) in
      (
        synced2,
        exact rows (refreshed k sha256 rows s) synced2 ended (λ r there.
            let (cur, found, sum) = at_row (IsUpToDate k law sha256 s1) r rows current there in
            (cur, same_seen r.id (row_seen r rows there) ∙ found, sum)),
      )
    where
      clash : {o : Option Registered} {cur : Registered} → o ≡ none → o ≡ some cur → ⊥
      clash p q = cc
