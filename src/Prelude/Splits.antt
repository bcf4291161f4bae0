-- ===== src/Prelude/Splits.antt =====
-- strings.Cut, strings.Split, strings.CutPrefix and strings.TrimSpace on bytes.
use Prim.Native.Nat.{ℕ}
use mathlib.Core.Path.{◌≡◌, refl}
use mathlib.Core.Logic.{◌≢◌}
use mathlib.Core.Bool.{Bool, ◌||◌}
use mathlib.Core.List.{List, [], ◌∷◌, ◌++◌}
use mathlib.Core.Option.{Option, none, some}
use native.Mathlib.Omega.{arith}
use ai_lab.Prelude.Tests.{◌==◌, if◌then◌else◌}
use ai_lab.Prelude.Lists.{All}
use ai_lab.Prelude.Texts.{Text}

-- What stands before and after the first occurrence of a byte.
unfoldable pub cut : ℕ → Text → Option (Text × Text)
cut b [] = none
cut b (c ∷ s) =
    let rest = cut b s in
    if c == b then some ([], s) else (elim rest [ none ↦ none | some p ↦ some (c ∷ p.0, p.1) ])

abbrev pub Without : ℕ → Text → Type 0
Without b = All (λ c. c ≢ b)

pub cut→eq : (b : ℕ) (s a t : Text) → cut b s ≡ some (a, t) → (s ≡ a ++ b ∷ t) × Without b a
unfolding cut
cut→eq b [] a t h = absurd cc
cut→eq b (c ∷ s) [] t h = (ground arith, tt)
cut→eq b (c ∷ s) (d ∷ a) t h = ground (arith, cut→eq b s a t)

pub cut_join : (b : ℕ) (a t : Text) → Without b a → cut b (a ++ b ∷ t) ≡ some (a, t)
unfolding cut
cut_join b [] t h = ground arith
cut_join b (c ∷ a) t h = ground (arith, cut_join b a t h.1, h.0)

abbrev pub onto_first : ℕ → List Text → List Text
onto_first c [] = (c ∷ []) ∷ []
onto_first c (p ∷ ps) = (c ∷ p) ∷ ps

-- strings.Split by a byte: never empty.
unfoldable pub split : ℕ → Text → List Text
split b [] = [] ∷ []
split b (c ∷ s) = let rest = split b s in if c == b then [] ∷ rest else onto_first c rest

-- What follows a prefix, or none if it is not one.
unfoldable pub cut_prefix : Text → Text → Option Text
cut_prefix [] s = some s
cut_prefix (c ∷ p) [] = none
cut_prefix (c ∷ p) (d ∷ s) = let rest = cut_prefix p s in if c == d then rest else none

pub cut_prefix→eq : (p s t : Text) → cut_prefix p s ≡ some t → s ≡ p ++ t
unfolding cut_prefix
cut_prefix→eq [] s t h = cc
cut_prefix→eq (c ∷ p) [] t h = absurd cc
cut_prefix→eq (c ∷ p) (d ∷ s) t h = ground (arith, cut_prefix→eq p s t)

pub cut_prefix-append : (p t : Text) → cut_prefix p (p ++ t) ≡ some t
unfolding cut_prefix
cut_prefix-append [] t = refl
cut_prefix-append (c ∷ p) t = ground (arith, cut_prefix-append p t)

-- The ASCII part of unicode.IsSpace.
abbrev pub is_space : ℕ → Bool
is_space c = (c == 32) || ((c == 9) || ((c == 10) || ((c == 11) || ((c == 12) || (c == 13)))))

abbrev pub trim_left : Text → Text
trim_left [] = []
trim_left (c ∷ s) = let rest = trim_left s in if is_space c then rest else c ∷ s

abbrev pub trim_right : Text → Text
trim_right [] = []
trim_right (c ∷ s) =
    let rest = trim_right s in
    elim rest [ [] ↦ (if is_space c then [] else c ∷ []) | d ∷ t ↦ c ∷ d ∷ t ]

unfoldable pub trim_space : Text → Text
trim_space s = trim_right (trim_left s)
