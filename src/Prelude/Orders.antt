-- ===== src/Prelude/Orders.antt =====
-- SELECT … ORDER BY key DESC LIMIT n over a table in insertion order.
use Prim.Native.Nat.{ℕ, zero, suc, ◌≤◌}
use mathlib.Core.Path.{◌≡◌, refl, ap}
use mathlib.Core.Logic.{inl, inr}
use mathlib.Core.Bool.{Bool, true, ◌||◌}
use mathlib.Core.Option.{Option, none, some}
use mathlib.Core.List.{List, [], ◌∷◌, map}
use native.Mathlib.Omega.{arith}
use ai_lab.Prelude.Tests.{ltb, leb, if◌then◌else◌, Bool-cases}
use ai_lab.Prelude.Lists.{All, All-map, length, take}
use ai_lab.Prelude.Tables.{select, All-select}

module _ {A : Type 0} where
  pub All-take : (P : A → Type 0) (n : ℕ) (rs : List A) → All P rs → All P (take n rs)
  All-take P zero rs h = tt
  All-take P (suc n) [] h = tt
  All-take P (suc n) (r ∷ rs) h = (h.0, All-take P n rs h.1)

  pub length-take_le : (n : ℕ) (rs : List A) → length (take n rs) ≤ n
  length-take_le zero rs = omega arith
  length-take_le (suc n) [] = omega arith
  length-take_le (suc n) (r ∷ rs) = omega (arith, length-take_le n rs)

module _ {A : Type 0} (key : A → ℕ) where
  abbrev pub insert_desc : A → List A → List A
  insert_desc r [] = r ∷ []
  insert_desc r (x ∷ xs) =
      let rest = insert_desc r xs in if ltb (key r) (key x) then x ∷ rest else r ∷ x ∷ xs

  abbrev pub order_desc : List A → List A
  order_desc [] = []
  order_desc (r ∷ rs) = insert_desc r (order_desc rs)

  -- WHERE p ORDER BY key DESC LIMIT n
  abbrev pub page : (A → Bool) → ℕ → List A → List A
  page p n rows = take n (order_desc (select p rows))

  abbrev pub IsDescending : List A → Type 0
  IsDescending [] = Unit
  IsDescending (r ∷ rs) = All (λ s. key s ≤ key r) rs × IsDescending rs

  All-insert_desc :
      (P : A → Type 0) (r : A) (rs : List A) → P r → All P rs → All P (insert_desc r rs)
  All-insert_desc P r [] p h = (p, tt)
  All-insert_desc P r (x ∷ rs) p h = ground (arith, All-insert_desc P r rs p h.1)

  All-order_desc : (P : A → Type 0) (rs : List A) → All P rs → All P (order_desc rs)
  All-order_desc P [] h = tt
  All-order_desc P (r ∷ rs) h = All-insert_desc P r (order_desc rs) h.0 (All-order_desc P rs h.1)

  insert_desc-IsDescending :
      (r : A) (rs : List A) → IsDescending rs → IsDescending (insert_desc r rs)
  insert_desc-IsDescending r [] h = (tt, tt)
  insert_desc-IsDescending r (x ∷ rs) h = elim (Bool-cases (ltb (key r) (key x))) [
    | inl older ↦ rw older (
      All-insert_desc (λ s. key s ≤ key x) r rs (ground arith) h.0,
      insert_desc-IsDescending r rs h.1,
    )
    | inr newer ↦
        rw newer ((ground arith, All-map (λ s (k : key s ≤ key x). ground arith) rs h.0), h)
  ]

  order_desc-IsDescending : (rs : List A) → IsDescending (order_desc rs)
  order_desc-IsDescending [] = tt
  order_desc-IsDescending (r ∷ rs) =
      insert_desc-IsDescending r (order_desc rs) (order_desc-IsDescending rs)

  take-IsDescending : (n : ℕ) (rs : List A) → IsDescending rs → IsDescending (take n rs)
  take-IsDescending zero rs h = tt
  take-IsDescending (suc n) [] h = tt
  take-IsDescending (suc n) (r ∷ rs) h =
      (All-take (λ s. key s ≤ key r) n rs h.0, take-IsDescending n rs h.1)

  pub page-IsDescending : (p : A → Bool) (n : ℕ) (rows : List A) → IsDescending (page p n rows)
  page-IsDescending p n rows =
      take-IsDescending n (order_desc (select p rows)) (order_desc-IsDescending (select p rows))

  pub All-page :
      (P : A → Type 0) (p : A → Bool) (imp : (r : A) → p r ≡ true → P r) (n : ℕ) (rows : List A)
      → All P (page p n rows)
  All-page P p imp n rows =
      let chosen = select p rows in
      All-take P n (order_desc chosen)
        (All-order_desc P chosen (All-map {Q = P} (λ r e. imp r e) chosen (All-select p rows)))

module _ {A B : Type 0} (f : A → B) where
  pub length-map : (rs : List A) → length (map f rs) ≡ length rs
  length-map [] = refl
  length-map (r ∷ rs) = ap suc (length-map rs)

  pub All-image : (P : B → Type 0) (rs : List A) → All (λ r. P (f r)) rs → All P (map f rs)
  All-image P [] h = tt
  All-image P (r ∷ rs) h = (h.0, All-image P rs h.1)

  pub map-IsDescending :
      (key : B → ℕ) (rs : List A) → IsDescending (λ r. key (f r)) rs → IsDescending key (map f rs)
  map-IsDescending key [] h = tt
  map-IsDescending key (r ∷ rs) h =
      (All-image (λ s. key s ≤ key (f r)) rs h.0, map-IsDescending key rs h.1)

-- The clamp of a limit, which is an int: `none` stands for a limit below 0.
abbrev pub page_size : ℕ → ℕ → Option ℕ → ℕ
page_size usual most none = usual
page_size usual most (some n) = if leb n 0 || ltb most n then usual else n

pub page_size-le :
    (usual most : ℕ) (limit : Option ℕ) → usual ≤ most → page_size usual most limit ≤ most
page_size-le usual most none h = h
page_size-le usual most (some n) h = ground arith

-- What a list handler answers: the page, each row as the answer shows it.
module _ {A B : Type 0} (f : A → B) (key : B → ℕ) where
  pub page_lem :
      (P : B → Type 0) (p : A → Bool) (imp : (r : A) → p r ≡ true → P (f r)) (n : ℕ) (rows : List A)
      → let out = map f (page (λ r. key (f r)) p n rows) in
        All P out × (length out ≤ n) × IsDescending key out
  page_lem P p imp n rows =
      let rs = page (λ r. key (f r)) p n rows in
      (
        All-image f P rs (All-page (λ r. key (f r)) (λ r. P (f r)) p imp n rows),
        omega (
          arith,
          length-map f rs,
          length-take_le n (order_desc (λ r. key (f r)) (select p rows)),
        ),
        map-IsDescending f key rs (page-IsDescending (λ r. key (f r)) p n rows),
      )

  pub page_lem_le :
      (P : B → Type 0) (p : A → Bool) (imp : (r : A) → p r ≡ true → P (f r)) (usual most : ℕ)
      (limit : Option ℕ) (rows : List A)
      → usual ≤ most
      → let out = map f (page (λ r. key (f r)) p (page_size usual most limit) rows) in
        All P out × (length out ≤ most) × IsDescending key out
  page_lem_le P p imp usual most limit rows h =
      let ok = page_lem P p imp (page_size usual most limit) rows in
      (ok.0, omega (arith, ok.1, page_size-le usual most limit h), ok.2)
