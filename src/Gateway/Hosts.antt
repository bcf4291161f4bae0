-- ===== src/Gateway/Hosts.antt =====
-- parseHost of cmd/gateway/main.go reads exactly the hosts <agent>.<tenant>.<domain>.
use ai_lab.Prelude.{
  ℕ, ◌≡◌, refl, ap, ◌≢◌, some, [], ◌∷◌, ◌++◌, arith, length, length-append, All, Text, same_refl,
  same→eq, sym, ◌∙◌, ◌↔◌, inl, inr, none, append_assoc, Option-cases, same, subst,
}
use ai_lab.Gateway.{strip_suffix, split_dot, parse_host}

-- No dot in a text, as in every agent name that passes the manifest's validation.
abbrev pub NoDot : Text → Type 0
NoDot = All (λ c. c ≢ b'.')

strip_suffix→eq : (suffix s p : Text) → strip_suffix suffix s ≡ some p → s ≡ p ++ suffix
unfolding strip_suffix
strip_suffix→eq suffix [] p h = ground (arith, same→eq [] suffix)
strip_suffix→eq suffix (c ∷ s) [] h = ground (arith, same→eq (c ∷ s) suffix)
strip_suffix→eq suffix (c ∷ s) (d ∷ p) h = ground (arith, strip_suffix→eq suffix s p)

split_dot→eq : (s a t : Text) → split_dot s ≡ some (a, t) → (s ≡ a ++ b'.' ∷ t) × NoDot a
unfolding split_dot
split_dot→eq [] a t h = absurd cc
split_dot→eq (c ∷ s) [] t h = (ground arith, tt)
split_dot→eq (c ∷ s) (d ∷ a) t h = ground (arith, split_dot→eq s a t)

pub split_dot_join : (a t : Text) → NoDot a → split_dot (a ++ b'.' ∷ t) ≡ some (a, t)
unfolding split_dot
split_dot_join [] t h = refl
split_dot_join (c ∷ a) t h = ground (arith, split_dot_join a t h.1, h.0)

longer : (c : ℕ) (p s : Text) → c ∷ p ++ s ≢ s
longer c p s e = absurd (omega (arith, length-append (c ∷ p) s, ap length e))

strip_suffix_append : (p suffix : Text) → strip_suffix suffix (p ++ suffix) ≡ some p
unfolding strip_suffix same
strip_suffix_append [] [] = refl
strip_suffix_append [] (c ∷ s) = rw (same_refl (c ∷ s)) refl
strip_suffix_append (c ∷ p) suffix =
    ground
      (arith, strip_suffix_append p suffix, same→eq (c ∷ p ++ suffix) suffix, longer c p suffix)

-- parseHost takes a host apart into agent and tenant exactly when it is <agent>.<tenant>.<domain>
-- with no dot in the agent; the tenant is all up to the domain.
pub parse_host_iff :
    (host domain agent tenant : Text)
    → (parse_host host domain ≡ some (agent, tenant))
      ↔ ((host ≡ agent ++ b'.' ∷ (tenant ++ b'.' ∷ domain)) × NoDot agent)
unfolding parse_host
parse_host_iff host domain agent tenant = (
  λ h. elim (Option-cases (strip_suffix (b'.' ∷ domain) host)) [
    | inl n ↦ absurd (none_of n h)
    | inr (p, e) ↦ split p e h
  ],
  λ (e, nd). rw (parse_host, stripped e) (split_dot_join agent tenant nd),
)
  where
    none_of :
        strip_suffix (b'.' ∷ domain) host ≡ none → parse_host host domain ≢ some (agent, tenant)
    none_of n h = ground (arith, n, h)

    split :
        (p : Text)
        → strip_suffix (b'.' ∷ domain) host ≡ some p
        → parse_host host domain ≡ some (agent, tenant)
        → (host ≡ agent ++ b'.' ∷ (tenant ++ b'.' ∷ domain)) × NoDot agent
    split p e h =
        let (q, nd) = split_dot→eq p agent tenant (ground (arith, e, h)) in
        (
          strip_suffix→eq (b'.' ∷ domain) host p e
              ∙ ap (λ x. x ++ b'.' ∷ domain) q
              ∙ append_assoc agent (b'.' ∷ tenant) (b'.' ∷ domain),
          nd,
        )

    stripped :
        host ≡ agent ++ b'.' ∷ (tenant ++ b'.' ∷ domain)
        → strip_suffix (b'.' ∷ domain) host ≡ some (agent ++ b'.' ∷ tenant)
    stripped e =
        subst (λ x. strip_suffix (b'.' ∷ domain) x ≡ some (agent ++ b'.' ∷ tenant))
          (append_assoc agent (b'.' ∷ tenant) (b'.' ∷ domain) ∙ sym e)
          (strip_suffix_append (agent ++ b'.' ∷ tenant) (b'.' ∷ domain))
