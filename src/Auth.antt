-- ===== src/Auth.antt =====
-- Who a request comes from (internal/auth): the dev verifier and the middleware of auth.go, the
-- WorkOS verifier of workos.go with the JWT library as a parameter, and the answer to browsers of
-- cors.go.
pub mod Tokens
pub mod Origins
use ai_lab.Prelude.{
  ℕ, zero, suc, ◌*◌, Bool, false, not, ◌&&◌, ◌||◌, Option, none, some, List, [], ◌∷◌, if◌then◌else◌,
  Text, txt, is_empty, same, cut, split, cut_prefix, trim_space, lookup,
}

-- An Identity, as FromContext returns it.
pub record Identity : Type 0 where
  pub tenant_id : Text
  pub user_id : Text

-- strings.SplitN by a byte into at most n parts
abbrev pub split_n : ℕ → ℕ → Text → List Text
split_n b zero s = []
split_n b (suc zero) s = s ∷ []
split_n b (suc (suc n)) s = elim (cut b s) [ none ↦ s ∷ [] | some p ↦ p.0 ∷ split_n b (suc n) p.1 ]

abbrev pub dev_identity : List Text → Option Identity
dev_identity (d ∷ t ∷ u ∷ []) =
    if not (same d (txt "dev")) || (is_empty t || is_empty u)
    then none
    else some (record { tenant_id = t; user_id = u })
dev_identity _ = none

-- DevVerifier.Verify: `none` is ErrUnauthorized.
unfoldable pub verify_dev : Text → Option Identity
verify_dev token = dev_identity (split_n b':' 3 token)

-- A claim of a token: a string, or a value of another kind.
pub data Claim : Type 0 where
  text_claim : Text → Claim
  other_claim : Claim

-- A parsed jwt.Token. The subject is empty where it is not set.
pub record Token : Type 0 where
  pub claims : List (Text × Claim)
  pub subject : Text

-- readStringClaim with its second result dropped, as its callers do
abbrev pub read_string_claim : Option Claim → Text
read_string_claim none = []
read_string_claim (some (text_claim s)) = s
read_string_claim (some other_claim) = []

-- The tenant that the claims name, or the empty text.
abbrev pub claimed_tenant : Token → Text
claimed_tenant tok =
    let org = read_string_claim (lookup (txt "org_id") tok.claims) in
    if is_empty org then read_string_claim (lookup (txt "organization_id") tok.claims) else org

abbrev pub token_identity : Option Token → Option Identity
token_identity none = none
token_identity (some tok) =
    if is_empty (claimed_tenant tok) || is_empty tok.subject
    then none
    else some (record { tenant_id = claimed_tenant tok; user_id = tok.subject })

-- WorkOSVerifier.Verify, given the fetched key set, or none where the fetch fails, and jwt.Parse
-- with the options that the verifier sets: the key set and the audience, empty for no check of it.
unfoldable pub verify_work_os :
    {Keys : Type 0}
    → (Keys → Text → Text → Option Token)
    → Text
    → Option Keys
    → Text
    → Option Identity
verify_work_os parse audience none token = none
verify_work_os parse audience (some keys) token = token_identity (parse keys audience token)

abbrev pub bearer : Text
bearer = txt "Bearer "

-- Middleware: the handler behind it takes the identity, and a state to its next and a status.
unfoldable pub middleware :
    {S : Type 0} → (Text → Option Identity) → (Identity → S → S × ℕ) → Text → S → S × ℕ
middleware verify next header s = elim (cut_prefix bearer header) [
  | none ↦ (s, 401)
  | some token ↦ elim (verify token) [ none ↦ (s, 401) | some i ↦ next i s ]
]

-- parseOrigins
abbrev pub trimmed : List Text → List Text
trimmed [] = []
trimmed (p ∷ ps) =
    let rest = trimmed ps in if is_empty (trim_space p) then rest else trim_space p ∷ rest

unfoldable pub parse_origins : Text → List Text
parse_origins csv = trimmed (split b',' csv)

unfoldable pub allow : List Text → Text → Bool
allow [] origin = false
allow (a ∷ allowed) origin = (same a (txt "*") || same a origin) || allow allowed origin

-- What CORS does to one request: the headers it sets, and 204 in place of the handler, or none.
pub record Answer : Type 0 where
  pub headers : List (Text × Text)
  pub status : Option ℕ

abbrev pub cors_headers : Text → List (Text × Text)
cors_headers origin =
    (txt "Access-Control-Allow-Origin", origin)
    ∷ (txt "Vary", txt "Origin")
    ∷ (txt "Access-Control-Allow-Methods", txt "GET, POST, PUT, DELETE, OPTIONS")
    ∷ (txt "Access-Control-Allow-Headers", txt "Authorization, Content-Type, X-AiLab-Signature")
    ∷ (txt "Access-Control-Max-Age", txt "600")
    ∷ []

unfoldable pub cors : Text → Text → Text → Answer
unfolding parse_origins allow
cors origins origin method = record {
  headers =
      if not (is_empty origin) && allow (parse_origins origins) origin
      then cors_headers origin
      else [];
  status = if same method (txt "OPTIONS") then some 204 else none;
}
