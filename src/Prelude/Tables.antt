-- ===== src/Prelude/Tables.antt =====
-- SQL tables as lists of rows, in the order of insertion: UPDATE … WHERE, DELETE … WHERE, SELECT.
use mathlib.Core.Path.{◌≡◌, refl}
use mathlib.Core.Bool.{Bool, true, false, ◌||◌}
use mathlib.Core.List.{List, [], ◌∷◌}
use mathlib.Core.Option.{Option, none, some}
use mathlib.Core.Logic.{inl, inr}
use native.Mathlib.Omega.{arith}
use ai_lab.Prelude.Tests.{if◌then◌else◌, Bool-cases, is_some}
use ai_lab.Prelude.Lists.{All}

module _ {ℓ} {A : Type ℓ} where
  -- UPDATE t SET f WHERE p
  abbrev pub update_where : (A → Bool) → (A → A) → List A → List A
  update_where p f [] = []
  update_where p f (x ∷ xs) = (if p x then f x else x) ∷ update_where p f xs

  -- SELECT … WHERE p, all rows
  abbrev pub select : (A → Bool) → List A → List A
  select p [] = []
  select p (x ∷ xs) = let rest = select p xs in if p x then x ∷ rest else rest

  -- SELECT … WHERE p, the first row
  abbrev pub select_one : (A → Bool) → List A → Option A
  select_one p [] = none
  select_one p (x ∷ xs) = let rest = select_one p xs in if p x then some x else rest

  abbrev pub any : (A → Bool) → List A → Bool
  any p [] = false
  any p (x ∷ xs) = p x || any p xs

  -- Rows at the same place of two versions of a table, related.
  pub data Rows (R : A → A → Type ℓ) : List A → List A → Type ℓ where
    none_left : Rows R [] []
    row : {x y : A} {xs ys : List A} → R x y → Rows R xs ys → Rows R (x ∷ xs) (y ∷ ys)

  pub update_where-Rows :
      {R : A → A → Type ℓ} (p : A → Bool) (f : A → A)
      → ((x : A) → R x (if p x then f x else x))
      → (xs : List A) → Rows R xs (update_where p f xs)
  update_where-Rows p f h [] = none_left
  update_where-Rows p f h (x ∷ xs) = row (h x) (update_where-Rows p f h xs)

  pub Rows-refl : {R : A → A → Type ℓ} → ((x : A) → R x x) → (xs : List A) → Rows R xs xs
  Rows-refl h [] = none_left
  Rows-refl h (x ∷ xs) = row (h x) (Rows-refl h xs)

  pub Rows-trans :
      {R : A → A → Type ℓ}
      → ((x y z : A) → R x y → R y z → R x z)
      → {xs ys zs : List A} → Rows R xs ys
      → Rows R ys zs
      → Rows R xs zs
  Rows-trans h none_left none_left = none_left
  Rows-trans h (row r rs) (row s ss) = row (h _ _ _ r s) (Rows-trans h rs ss)

  -- A second update that changes nothing of what the first has left.
  pub update_where_absorbed :
      (p q : A → Bool) (f g : A → A)
      → ((x : A)
          → (if q (if p x then f x else x)
              then g (if p x then f x else x)
              else if p x
              then f x
              else x)
            ≡ (if p x then f x else x))
      → (xs : List A) → update_where q g (update_where p f xs) ≡ update_where p f xs
  update_where_absorbed p q f g h [] = refl
  update_where_absorbed p q f g h (x ∷ xs) = λ i. h x i ∷ update_where_absorbed p q f g h xs i

  pub All-select : (p : A → Bool) (xs : List A) → All (λ x. p x ≡ true) (select p xs)
  All-select p [] = tt
  All-select p (x ∷ xs) = ground (arith, All-select p xs)

  pub select_one_sound :
      (p : A → Bool) (xs : List A) (x : A) → select_one p xs ≡ some x → p x ≡ true
  select_one_sound p [] x h = cc
  select_one_sound p (y ∷ xs) x h = ground (arith, select_one_sound p xs x)

  pub All-select_if {κ} :
      (P : A → Type κ) (p : A → Bool) (xs : List A)
      → All (λ x. p x ≡ true → P x) xs
      → All P (select p xs)
  All-select_if P p [] h = tt
  All-select_if P p (x ∷ xs) h = elim (Bool-cases (p x)) [
    | inl e ↦ rw e (h.0 e, All-select_if P p xs h.1)
    | inr n ↦ rw n (All-select_if P p xs h.1)
  ]

  -- DELETE FROM t WHERE p
  abbrev pub delete_where : (A → Bool) → List A → List A
  delete_where p [] = []
  delete_where p (x ∷ xs) = let rest = delete_where p xs in if p x then rest else x ∷ rest

  pub any-delete_where : (p : A → Bool) (xs : List A) → any p (delete_where p xs) ≡ false
  any-delete_where p [] = refl
  any-delete_where p (x ∷ xs) = elim (Bool-cases (p x)) [
    | inl e ↦ rw e (any-delete_where p xs)
    | inr n ↦ rw n (rw n (any-delete_where p xs))
  ]

  -- A row that the deletion does not name is found as before.
  pub select_one-delete_where :
      (p q : A → Bool) (xs : List A)
      → ((x : A) → p x ≡ true → q x ≡ false)
      → select_one q (delete_where p xs) ≡ select_one q xs
  select_one-delete_where p q [] h = refl
  select_one-delete_where p q (x ∷ xs) h = ground (arith, select_one-delete_where p q xs h, h x)

  pub select_one-delete_where_self :
      (p : A → Bool) (xs : List A) → select_one p (delete_where p xs) ≡ none
  select_one-delete_where_self p [] = refl
  select_one-delete_where_self p (x ∷ xs) = ground (arith, select_one-delete_where_self p xs)

  pub any-select_one : (p : A → Bool) (xs : List A) → any p xs ≡ is_some (select_one p xs)
  any-select_one p [] = refl
  any-select_one p (x ∷ xs) = ground (arith, any-select_one p xs)
