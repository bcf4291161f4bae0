-- ===== src/Prelude/Batches.antt =====
-- SELECT … WHERE key > last ORDER BY key LIMIT n over rows in insertion order, and what such a batch
-- holds where the keys come from a sequence.
use Prim.Native.Nat.{ℕ, zero, suc, ◌≤◌, ◌<◌}
use mathlib.Core.Path.{◌≡◌, refl, sym, ◌∙◌, subst}
use mathlib.Core.Logic.{◌⊎◌, inl, inr, ◌≢◌}
use mathlib.Core.Bool.{Bool, true, false}
use mathlib.Core.List.{List, [], ◌∷◌, ◌++◌}
use native.Mathlib.Omega.{arith}
use ai_lab.Prelude.Tests.{ltb, if◌then◌else◌, Bool-cases}
use ai_lab.Prelude.Lists.{All, All-map, All-append, take}
use ai_lab.Prelude.Tables.{select}
use ai_lab.Prelude.Orders.{All-take}

module _ {A : Type 0} where
  abbrev pub In : A → List A → Type 0
  In r [] = ⊥
  In r (x ∷ xs) = (x ≡ r) ⊎ In r xs

  All-select_where : (P : A → Type 0) (p : A → Bool) (xs : List A) → All P xs → All P (select p xs)
  All-select_where P p [] h = tt
  All-select_where P p (x ∷ xs) h = elim (Bool-cases (p x)) [
    | inl e ↦ rw e (h.0, All-select_where P p xs h.1)
    | inr n ↦ rw n (All-select_where P p xs h.1)
  ]

  unselect :
      (P : A → Type 0) (p : A → Bool) (xs : List A)
      → All P (select p xs)
      → All (λ u. p u ≡ true → P u) xs
  unselect P p [] h = tt
  unselect P p (x ∷ xs) h = go (unselect P p xs) (p x) refl
    where
      go :
          (All P (select p xs) → All (λ u. p u ≡ true → P u) xs)
          → (b : Bool) → p x ≡ b
          → All (λ u. p u ≡ true → P u) (x ∷ xs)
      go rest true e =
          let g = subst (λ b. All P (if b then x ∷ select p xs else select p xs)) e h in
          (λ q. g.0, rest g.1)
      go rest false e = (
        λ q. absurd (ground (arith, e, q)),
        rest (subst (λ b. All P (if b then x ∷ select p xs else select p xs)) e h),
      )

module _ {A : Type 0} (key : A → ℕ) where
  -- ORDER BY key
  abbrev pub insert_asc : A → List A → List A
  insert_asc r [] = r ∷ []
  insert_asc r (x ∷ xs) =
      let rest = insert_asc r xs in if ltb (key x) (key r) then x ∷ rest else r ∷ x ∷ xs

  abbrev pub order_asc : List A → List A
  order_asc [] = []
  order_asc (r ∷ rs) = insert_asc r (order_asc rs)

  abbrev pub batch : ℕ → ℕ → List A → List A
  batch last n rows = take n (order_asc (select (λ r. ltb last (key r)) rows))

  -- The key of the last row of a batch that is not empty.
  abbrev pub last_key : A → List A → ℕ
  last_key r [] = key r
  last_key r (x ∷ xs) = last_key x xs

  -- The order of the key is the order of insertion.
  abbrev pub IsAscendingBy : List A → Type 0
  IsAscendingBy [] = Unit
  IsAscendingBy (x ∷ xs) = All (λ y. key x < key y) xs × IsAscendingBy xs

  -- The rows past a key.
  abbrev pub is_after : ℕ → A → Bool
  is_after last_id r = ltb last_id (key r)

  insert_asc_first : (x : A) (xs : List A) → All (λ y. key x < key y) xs → insert_asc x xs ≡ x ∷ xs
  insert_asc_first x [] h = refl
  insert_asc_first x (y ∷ ys) h = ground (arith, h.0)

  order_asc_ascending : (xs : List A) → IsAscendingBy xs → order_asc xs ≡ xs
  order_asc_ascending [] h = refl
  order_asc_ascending (x ∷ xs) h = rw (order_asc_ascending xs h.1) (insert_asc_first x xs h.0)

  pub select-IsAscendingBy :
      (p : A → Bool) (xs : List A) → IsAscendingBy xs → IsAscendingBy (select p xs)
  select-IsAscendingBy p [] h = tt
  select-IsAscendingBy p (x ∷ xs) h = elim (Bool-cases (p x)) [
    | inl e ↦ rw e (All-select_where _ p xs h.0, select-IsAscendingBy p xs h.1)
    | inr n ↦ rw n (select-IsAscendingBy p xs h.1)
  ]

  -- Over an ascending table the batch is the first rows past the key.
  pub batch_lem :
      (last_id n : ℕ) (rows : List A)
      → IsAscendingBy rows
      → batch last_id n rows ≡ take n (select (is_after last_id) rows)
  batch_lem last_id n rows h =
      rw
        (order_asc_ascending (select (is_after last_id) rows)
          (select-IsAscendingBy (is_after last_id) rows h))
        refl

  -- The rows of a table up to the last one of a batch are in it.
  abbrev InBatch : List A → List A → Type 0
  InBatch xs [] = Unit
  InBatch xs (r ∷ rs) = All (λ u. (key u) ≤ last_key r rs → In u (r ∷ rs)) xs

  taken :
      (n : ℕ) (x : A) (xs : List A)
      → IsAscendingBy (x ∷ xs)
      → All (λ u. (key u) ≤ last_key x (take n xs) → In u (x ∷ take n xs)) (x ∷ xs)
  taken zero x xs h = (λ le. inl refl, All-map (λ u lt le. absurd (omega (arith, lt, le))) xs h.0)
  taken (suc n) x [] h = (λ le. inl refl, tt)
  taken (suc n) x (y ∷ ys) h =
      (λ le. inl refl, All-map (λ u imp le. inr (imp le)) (y ∷ ys) (taken n y ys h.1))

  -- A row up to the last one of a batch is in the batch, or had been passed before.
  pub batch_covers :
      (last_id n : ℕ) (rows : List A) (r : A) (rs : List A)
      → IsAscendingBy rows
      → batch last_id n rows ≡ r ∷ rs
      → All (λ u. (key u) ≤ last_key r rs → ((key u) ≤ last_id) ⊎ In u (r ∷ rs)) rows
  batch_covers last_id n rows r rs h e = All-map close rows (
      unselect _ (is_after last_id) rows (
        go n (select (is_after last_id) rows) (select-IsAscendingBy (is_after last_id) rows h)
          (sym (batch_lem last_id n rows h) ∙ e)))
    where
      go :
          (n : ℕ) (xs : List A)
          → IsAscendingBy xs
          → take n xs ≡ r ∷ rs
          → All (λ u. (key u) ≤ last_key r rs → In u (r ∷ rs)) xs
      go zero xs a q = absurd cc
      go (suc n) [] a q = absurd cc
      go (suc n) (x ∷ xs) a q = subst (InBatch (x ∷ xs)) q (taken n x xs a)

      close :
          (u : A)
          → (is_after last_id u ≡ true → (key u) ≤ last_key r rs → In u (r ∷ rs))
          → (key u) ≤ last_key r rs
          → ((key u) ≤ last_id) ⊎ In u (r ∷ rs)
      close u imp le = elim (Bool-cases (is_after last_id u)) [
        | inl p ↦ inr (imp p le)
        | inr p ↦ inl (ground (arith, p))
      ]

  pub All-batch :
      (P : A → Type 0) (last_id n : ℕ) (rows : List A)
      → IsAscendingBy rows
      → All P rows
      → All P (batch last_id n rows)
  All-batch P last_id n rows h a =
      rw (batch_lem last_id n rows h) (
        All-take P n (select (is_after last_id) rows)
          (All-select_where P (is_after last_id) rows a))

  pub last_key-All :
      (P : ℕ → Type 0) (r : A) (rs : List A) → All (λ u. P (key u)) (r ∷ rs) → P (last_key r rs)
  last_key-All P r [] h = h.0
  last_key-All P r (x ∷ xs) h = last_key-All P x xs h.1

  pub append-IsAscendingBy :
      (xs : List A) (r : A)
      → IsAscendingBy xs
      → All (λ u. key u < key r) xs
      → IsAscendingBy (xs ++ r ∷ [])
  append-IsAscendingBy [] r a b = (tt, tt)
  append-IsAscendingBy (x ∷ xs) r a b =
      (All-append (λ y. key x < key y) xs (r ∷ []) a.0 (b.0, tt), append-IsAscendingBy xs r a.1 b.1)

  -- A row put in its place by the key.
  pub All-insert_asc :
      (P : A → Type 0) (r : A) (xs : List A) → P r → All P xs → All P (insert_asc r xs)
  All-insert_asc P r [] p h = (p, tt)
  All-insert_asc P r (x ∷ xs) p h = elim (Bool-cases (ltb (key x) (key r))) [
    | inl e ↦ rw e (h.0, All-insert_asc P r xs p h.1)
    | inr n ↦ rw n (p, h)
  ]

  pub insert_asc-IsAscendingBy :
      (r : A) (xs : List A)
      → IsAscendingBy xs
      → All (λ u. key u ≢ key r) xs
      → IsAscendingBy (insert_asc r xs)
  insert_asc-IsAscendingBy r [] h apart = (tt, tt)
  insert_asc-IsAscendingBy r (x ∷ xs) h apart = elim (Bool-cases (ltb (key x) (key r))) [
    | inl e ↦ rw e (
      All-insert_asc (λ y. key x < key y) r xs (ground (arith, e)) h.0,
      insert_asc-IsAscendingBy r xs h.1 apart.1,
    )
    | inr n ↦
        let differ : key x ≢ key r = apart.0 in
        let first : key r < key x = ground (arith, n, differ) in
        rw n ((first, All-map (λ y lt. omega (arith, first, lt)) xs h.0), h)
  ]

  pub insert_asc_last :
      (r : A) (xs : List A) → All (λ u. key u < key r) xs → insert_asc r xs ≡ xs ++ r ∷ []
  insert_asc_last r [] h = refl
  insert_asc_last r (x ∷ xs) h = ground (arith, h.0, insert_asc_last r xs h.1)

  All-order_asc : (P : A → Type 0) (xs : List A) → All P xs → All P (order_asc xs)
  All-order_asc P [] h = tt
  All-order_asc P (x ∷ xs) h = All-insert_asc P x (order_asc xs) h.0 (All-order_asc P xs h.1)

  past : (last : ℕ) (xs : List A) → All (λ u. last < key u) (select (λ r. ltb last (key r)) xs)
  past last [] = tt
  past last (x ∷ xs) = elim (Bool-cases (ltb last (key x))) [
    | inl e ↦ rw e (ground (arith, e), past last xs)
    | inr n ↦ rw n (past last xs)
  ]

  -- Whatever the order of the table, a batch holds rows past the key alone.
  pub batch_past : (last n : ℕ) (rows : List A) → All (λ u. last < key u) (batch last n rows)
  batch_past last n rows = All-take _ n _ (All-order_asc (λ u. last < key u) _ (past last rows))
