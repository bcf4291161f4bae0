-- ===== src/Prelude/Stores.antt =====
-- Objects of the API server, or entries of a Go map, under keys with a decidable equality test.
use mathlib.Core.Path.{◌≡◌, refl}
use mathlib.Core.Logic.{inl, inr}
use mathlib.Core.Bool.{true}
use mathlib.Core.List.{List, [], ◌∷◌}
use mathlib.Core.Option.{Option, none, some}
use native.Mathlib.Omega.{arith}
use ai_lab.Prelude.Tests.{if◌then◌else◌, Bool-cases}
use ai_lab.Prelude.Texts.{Text, same, same→eq, same_refl}

module _ {ℓ} {V : Type ℓ} where
  unfoldable pub lookup : Text → List (Text × V) → Option V
  lookup k [] = none
  lookup k ((j, v) ∷ m) = let rest = lookup k m in if same j k then some v else rest

  unfoldable pub insert : Text → V → List (Text × V) → List (Text × V)
  insert k v [] = (k, v) ∷ []
  insert k v ((j, w) ∷ m) =
      let rest = insert k v m in if same j k then (j, v) ∷ m else (j, w) ∷ rest

  unfoldable pub delete : Text → List (Text × V) → List (Text × V)
  delete k [] = []
  delete k ((j, w) ∷ m) = let rest = delete k m in if same j k then rest else (j, w) ∷ rest

  pub lookup-insert :
      (k j : Text) (v : V) (m : List (Text × V))
      → lookup j (insert k v m) ≡ (if same k j then some v else lookup j m)
  unfolding lookup insert
  lookup-insert k j v [] = refl
  lookup-insert k j v ((i, w) ∷ m) = elim (Bool-cases (same i k)) [
    | inl e ↦ rw e (go (same→eq i k e))
    | inr n ↦ rw n (ground (arith, lookup-insert k j v m, same→eq i j, same→eq k j, same_of i k j))
  ]
    where
      go : i ≡ k → lookup j ((i, v) ∷ m) ≡ (if same k j then some v else lookup j ((i, w) ∷ m))
      go e = rw e (ground arith)

      same_of : (i k j : Text) → i ≡ j → k ≡ j → same i k ≡ true
      same_of i k j p q = rw (p, q) (same_refl j)

  pub lookup-delete :
      (k j : Text) (m : List (Text × V))
      → lookup j (delete k m) ≡ (if same k j then none else lookup j m)
  unfolding lookup delete
  lookup-delete k j [] = ground arith
  lookup-delete k j ((i, w) ∷ m) =
      ground (
        arith,
        lookup-delete k j m,
        same→eq i k,
        same→eq i j,
        same→eq k j,
        same_refl j,
        same_refl k,
      )

  pub lookup-cons_self : (k : Text) (v : V) (m : List (Text × V)) → lookup k ((k, v) ∷ m) ≡ some v
  unfolding lookup
  lookup-cons_self k v m = rw (same_refl k)

  -- A second insertion of the same key and value changes nothing.
  pub insert-insert :
      (k : Text) (v w : V) (m : List (Text × V)) → insert k v (insert k w m) ≡ insert k v m
  unfolding insert
  insert-insert k v w [] = ground (arith, same_refl k)
  insert-insert k v w ((i, u) ∷ m) = ground (arith, insert-insert k v w m)

  -- An insertion of what is there changes nothing.
  pub insert_present :
      (k : Text) (v : V) (m : List (Text × V)) → lookup k m ≡ some v → insert k v m ≡ m
  unfolding lookup insert
  insert_present k v [] h = absurd cc
  insert_present k v ((i, w) ∷ m) h = ground (arith, insert_present k v m)

  pub lookup-insert_self :
      (k : Text) (v : V) (m : List (Text × V)) → lookup k (insert k v m) ≡ some v
  lookup-insert_self k v m = rw (lookup-insert k k v m, same_refl k) refl
