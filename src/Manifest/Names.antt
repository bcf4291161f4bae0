-- ===== src/Manifest/Names.antt =====
-- The names that nameRe accepts are the DNS-1123 labels.
use ai_lab.Prelude.{ℕ, zero, suc, ◌+◌, ◌≤◌, ◌≡◌, ◌↔◌, Bool, true, [], ◌∷◌, arith, length, All, Text}
use ai_lab.Manifest.{is_alnum, is_label_char, matches_rest, name_re_matches}

abbrev pub LastIs : (ℕ → Bool) → Text → Type 0
LastIs p [] = ⊥
LastIs p (c ∷ []) = p c ≡ true
LastIs p (c ∷ d ∷ s) = LastIs p (d ∷ s)

abbrev pub FirstIs : (ℕ → Bool) → Text → Type 0
FirstIs p [] = ⊥
FirstIs p (c ∷ s) = p c ≡ true

-- A DNS-1123 label: 1 to 63 characters, each a lower case letter, a digit or a dash, with no dash
-- at either end.
pub record IsLabel (s : Text) : Type 0 where
  pub short : length s ≤ 63
  pub chars : All (λ c. is_label_char c ≡ true) s
  pub first : FirstIs is_alnum s
  pub last : LastIs is_alnum s

alnum_label_char : (c : ℕ) → is_alnum c ≡ true → is_label_char c ≡ true
alnum_label_char c h = ground arith

rest→spec :
    (n : ℕ) (s : Text)
    → matches_rest n s ≡ true
    → (length s ≤ n + 1) × All (λ c. is_label_char c ≡ true) s × LastIs is_alnum s
unfolding matches_rest
rest→spec n [] h = cc
rest→spec n (c ∷ []) h = (omega arith, (alnum_label_char c h, tt), h)
rest→spec zero (c ∷ d ∷ s) h = cc
rest→spec (suc n) (c ∷ d ∷ s) h =
    let (len, chars, last) = rest→spec n (d ∷ s) (ground arith) in
    (omega (arith, len), (ground arith, chars), last)

spec→rest :
    (n : ℕ) (s : Text)
    → length s ≤ n + 1
    → All (λ c. is_label_char c ≡ true) s
    → LastIs is_alnum s
    → matches_rest n s ≡ true
unfolding matches_rest
spec→rest n [] len chars last = absurd last
spec→rest n (c ∷ []) len chars last = last
spec→rest zero (c ∷ d ∷ s) len chars last = absurd (omega arith)
spec→rest (suc n) (c ∷ d ∷ s) len chars last =
    rw (chars.0, spec→rest n (d ∷ s) (omega arith) chars.1 last)

-- nameRe accepts exactly the DNS-1123 labels.
pub name_re_matches_iff : (s : Text) → (name_re_matches s ≡ true) ↔ IsLabel s
unfolding name_re_matches
name_re_matches_iff [] = (λ h. cc, λ h. absurd h.first)
name_re_matches_iff (c ∷ []) = (
  λ h. record { short = omega arith; chars = (alnum_label_char c h, tt); first = h; last = h },
  λ h. h.first,
)
name_re_matches_iff (c ∷ d ∷ s) = (
  λ h.
      let (len, chars, last) = rest→spec 61 (d ∷ s) (ground arith) in
      record {
        short = omega (arith, len);
        chars = (alnum_label_char c (ground arith), chars);
        first = ground arith;
        last = last;
      },
  λ h. rw (h.first, spec→rest 61 (d ∷ s) (omega (arith, h.short)) h.chars.1 h.last),
)
