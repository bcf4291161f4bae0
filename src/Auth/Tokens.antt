-- ===== src/Auth/Tokens.antt =====
-- Which tokens are taken, and what a request without one can do.
use ai_lab.Prelude.{
  ℕ, ◌≡◌, refl, ◌≢◌, ◌↔◌, ◌⊎◌, inl, inr, Option, some, [], ◌∷◌, ◌++◌, Option-cases, Text, txt,
  Without, cut_prefix, cut_prefix→eq, subst, ◌∙◌, none, arith, same_refl, same→eq, cut, cut→eq,
  cut_join, suc, ap, is_empty_iff,
}
use ai_lab.Auth.{
  Identity, dev_identity, verify_dev, Token, verify_work_os, bearer, middleware, claimed_tenant,
  token_identity, split_n,
}

-- The shape of a dev token, for an identity.
abbrev pub dev_token : Identity → Text
dev_token i = txt "dev:" ++ (i.tenant_id ++ b':' ∷ i.user_id)

abbrev pub IsNamed : Identity → Type 0
IsNamed i = (i.tenant_id ≢ []) × (i.user_id ≢ [])

dev_parts :
    (d t u : Text) (i : Identity)
    → dev_identity (d ∷ t ∷ u ∷ []) ≡ some i
    → (d ≡ txt "dev") × (t ≡ i.tenant_id) × (u ≡ i.user_id) × IsNamed i
dev_parts d t u i h = ground (arith, same→eq d (txt "dev"), is_empty_iff t, is_empty_iff u)

dev_token→parts :
    (token : Text) (i : Identity)
    → verify_dev token ≡ some i
    → (token ≡ dev_token i) × Without b':' i.tenant_id × IsNamed i
unfolding verify_dev
dev_token→parts token i h = elim (Option-cases (cut b':' token)) [
  | inl e ↦ absurd (ground arith)
  | inr ((d, r), e) ↦ elim (Option-cases (cut b':' r)) [
    | inl e' ↦ absurd (ground arith)
    | inr ((t, u), e') ↦
        joined d r t u (cut→eq b':' token d r e) (cut→eq b':' r t u e') (ground arith)
  ]
]
  where
    joined :
        (d r t u : Text)
        → (token ≡ d ++ b':' ∷ r) × Without b':' d
        → (r ≡ t ++ b':' ∷ u) × Without b':' t
        → dev_identity (d ∷ t ∷ u ∷ []) ≡ some i
        → (token ≡ dev_token i) × Without b':' i.tenant_id × IsNamed i
    joined d r t u p q k =
        let is = dev_parts d t u i k in
        (p.0 ∙ rw (is.0, q.0, is.1, is.2) refl, subst (Without b':') is.1 q.1, is.3)

split_n-cut :
    (b n : ℕ) (s a t : Text)
    → cut b s ≡ some (a, t)
    → split_n b (suc (suc n)) s ≡ a ∷ split_n b (suc n) t
split_n-cut b n s a t e = rw (e, split_n) refl

dev_token_parts :
    (i : Identity)
    → Without b':' i.tenant_id
    → split_n b':' 3 (dev_token i) ≡ txt "dev" ∷ i.tenant_id ∷ i.user_id ∷ []
dev_token_parts i clean =
    let r = i.tenant_id ++ b':' ∷ i.user_id in
    split_n-cut b':' 1 (dev_token i) (txt "dev") r (cut_join b':' (txt "dev") r (ground arith))
    ∙ ap (λ ps. txt "dev" ∷ ps)
        (split_n-cut b':' 0 r i.tenant_id i.user_id (cut_join b':' i.tenant_id i.user_id clean))

parts→dev_token :
    (i : Identity) → Without b':' i.tenant_id → IsNamed i → verify_dev (dev_token i) ≡ some i
unfolding verify_dev
parts→dev_token i clean named =
    ap dev_identity (dev_token_parts i clean)
    ∙ ground (arith, same_refl (txt "dev"), is_empty_iff i.tenant_id, is_empty_iff i.user_id, named)

-- The dev verifier takes a token exactly when it is dev:tenant:user with both parts not empty and
-- no colon in the tenant, and answers with just these parts.
pub verify_dev_iff :
    (token : Text) (i : Identity)
    → (verify_dev token ≡ some i) ↔ ((token ≡ dev_token i) × Without b':' i.tenant_id × IsNamed i)
verify_dev_iff token i = (dev_token→parts token i, λ h. rw h.0 (parts→dev_token i h.1 h.2))

-- A WorkOS identity names a tenant and a user, whatever the JWT library makes of the token.
pub verify_work_os-IsNamed :
    {Keys : Type 0} (parse : Keys → Text → Text → Option Token) (audience : Text)
    (keys : Option Keys) (token : Text) (i : Identity)
    → verify_work_os parse audience keys token ≡ some i
    → IsNamed i
unfolding verify_work_os
verify_work_os-IsNamed parse audience none token i h = absurd cc
verify_work_os-IsNamed parse audience (some keys) token i h = named (parse keys audience token) h
  where
    named : (o : Option Token) → token_identity o ≡ some i → IsNamed i
    named none k = absurd cc
    named (some tok) k = ground (arith, is_empty_iff (claimed_tenant tok), is_empty_iff tok.subject)

-- Behind the middleware, with whatever verifier and handler, a request either changes nothing and
-- is answered 401, or its header is Bearer and a token that the verifier takes, and the handler
-- runs once, under the identity that the verifier gives.
pub middleware_gate :
    {S : Type 0} (verify : Text → Option Identity) (next : Identity → S → S × ℕ) (header : Text)
    (s : S)
    → (middleware verify next header s ≡ (s, 401))
      ⊎ ((token : Text) × (i : Identity) × (header ≡ bearer ++ token)
          × (verify token ≡ some i)
          × (middleware verify next header s ≡ next i s))
unfolding middleware cut_prefix
middleware_gate verify next header s = elim (Option-cases (cut_prefix bearer header)) [
  | inl e ↦ rw e (inl refl)
  | inr (token, e) ↦ elim (Option-cases (verify token)) [
    | inl no_one ↦ rw (e, no_one) (inl refl)
    | inr (i, who) ↦ inr (token, i, cut_prefix→eq bearer header token e, who, (rw (e, who) refl))
  ]
]
