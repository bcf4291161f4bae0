-- ===== src/Auth/Origins.antt =====
-- Which origins the CORS headers are for.
use ai_lab.Prelude.{
  ◌≡◌, ◌≢◌, ◌↔◌, ◌⊎◌, inl, inr, true, none, some, List, [], ◌∷◌, arith, Bool-cases, Text, txt,
  is_empty, split, trim_space, lookup, false, same_iff, is_empty_iff, Bool, not, ◌&&◌,
  if◌then◌else◌, same_refl,
}
use ai_lab.Auth.{trimmed, parse_origins, allow, cors, cors_headers}

-- A piece of the list, trimmed, that is the star or the origin itself.
abbrev pub Lists : Text → List Text → Type 0
Lists origin [] = ⊥
Lists origin (p ∷ ps) =
    ((trim_space p ≢ []) × ((trim_space p ≡ txt "*") ⊎ (trim_space p ≡ origin))) ⊎ Lists origin ps

allow-trimmed :
    (ps : List Text) (origin : Text) → (allow (trimmed ps) origin ≡ true) ↔ Lists origin ps
unfolding allow
allow-trimmed [] origin = ground arith
allow-trimmed (p ∷ ps) origin = elim (Bool-cases (is_empty (trim_space p))) [
  | inl e ↦ rw e (absent p ps origin e (allow-trimmed ps origin))
  | inr n ↦ rw n (present p ps origin n (allow-trimmed ps origin))
]
  where
    absent :
        (p : Text) (ps : List Text) (origin : Text)
        → is_empty (trim_space p) ≡ true
        → (allow (trimmed ps) origin ≡ true) ↔ Lists origin ps
        → (allow (trimmed ps) origin ≡ true) ↔ Lists origin (p ∷ ps)
    absent p ps origin e ih = ground (arith, is_empty_iff (trim_space p), ih)

    present :
        (p : Text) (ps : List Text) (origin : Text)
        → is_empty (trim_space p) ≡ false
        → (allow (trimmed ps) origin ≡ true) ↔ Lists origin ps
        → (allow (trim_space p ∷ trimmed ps) origin ≡ true) ↔ Lists origin (p ∷ ps)
    present p ps origin n ih = ground (
      arith,
      is_empty_iff (trim_space p),
      ih,
      same_iff (trim_space p) (txt "*"),
      same_iff (trim_space p) origin,
    )

header_iff :
    (origin o : Text) (b : Bool)
    → (lookup (txt "Access-Control-Allow-Origin") (if b then cors_headers origin else []) ≡ some o)
      ↔ ((o ≡ origin) × (b ≡ true))
unfolding lookup
header_iff origin o true = ground (arith, same_refl (txt "Access-Control-Allow-Origin"))
header_iff origin o false = ground arith

-- The header Access-Control-Allow-Origin is set exactly when the request has an origin that a
-- comma-separated piece of the list, spaces around it dropped, names by itself or by a star, and
-- it then repeats the origin. The handler is passed over exactly for OPTIONS.
pub cors_iff :
    (origins origin method : Text) (o : Text)
    → ((lookup (txt "Access-Control-Allow-Origin") (cors origins origin method).headers ≡ some o)
        ↔ ((o ≡ origin) × (origin ≢ []) × Lists origin (split b',' origins)))
      × (((cors origins origin method).status ≡ none) ↔ (method ≢ txt "OPTIONS"))
unfolding cors parse_origins
cors_iff origins origin method o = (
  ground (
    arith,
    header_iff origin o (not (is_empty origin) && allow (parse_origins origins) origin),
    is_empty_iff origin,
    allow-trimmed (split b',' origins) origin,
  ),
  ground (arith, same_iff method (txt "OPTIONS")),
)
