-- ===== src/Tenants/Signatures.antt =====
-- Which events of WorkOS are taken.
use ai_lab.Prelude.{
  Text, ℕ, ◌+◌, ◌*◌, ◌≤◌, ◌≡◌, ◌≢◌, true, Option, some, [], ◌∷◌, ◌++◌, hex_decode, refl, ap, none,
  arith, same→eq, is_empty_iff,
}
use ai_lab.Tenants.{
  parts_of, second, tolerance_or_default, verify, is_recent, equals_mac, check_mac, check_parts,
}

-- The signing of a body: some time no further than the tolerance from the clock, and the keyed hash
-- of that time and the body under the secret.
pub record IsSigned (mac : Text → Text → Text) (parse : Text → Option ℕ) (now tolerance : ℕ)
    (signing_secret header body : Text) : Type 0 where
  pub has_secret : signing_secret ≢ []
  pub ts : ℕ
  pub parsed : parse (parts_of header).0 ≡ some ts
  pub not_late : now ≤ ts * second + tolerance_or_default tolerance
  pub not_early : ts * second ≤ now + tolerance_or_default tolerance
  pub hash :
      hex_decode (parts_of header).1
      ≡ some (mac signing_secret ((parts_of header).0 ++ b'.' ∷ body))

-- The same of the parts of the header.
record Checks (mac : Text → Text → Text) (parse : Text → Option ℕ) (now tolerance : ℕ)
    (signing_secret : Text) (p : Text × Text) (body : Text) : Type 0 where
  at : ℕ
  parsed_at : parse p.0 ≡ some at
  recent : is_recent now tolerance at ≡ true
  hash_of : hex_decode p.1 ≡ some (mac signing_secret (p.0 ++ b'.' ∷ body))

equal_hash : (o : Option Text) (got : Text) → equals_mac o got ≡ true → o ≡ some got
equal_hash none got h = absurd cc
equal_hash (some want) got h = ap some (same→eq want got h)

checked :
    (mac : Text → Text → Text) (parse : Text → Option ℕ) (now tolerance : ℕ) (signing_secret : Text)
    (p : Text × Text) (body : Text) (o : Option ℕ)
    → parse p.0 ≡ o
    → check_mac mac now tolerance signing_secret p body o ≡ true
    → Checks mac parse now tolerance signing_secret p body
checked mac parse now tolerance signing_secret (ts_str, v1) body none e h = absurd cc
checked mac parse now tolerance signing_secret (ts_str, v1) body (some ts) e h =
    let hash = mac signing_secret (ts_str ++ b'.' ∷ body) in
    record {
      at = ts;
      parsed_at = e;
      recent = ground arith;
      hash_of = equal_hash (hex_decode v1) hash (ground arith);
    }

parts_checked :
    (mac : Text → Text → Text) (parse : Text → Option ℕ) (now tolerance : ℕ) (signing_secret : Text)
    (p : Text × Text) (body : Text)
    → check_parts mac parse now tolerance signing_secret p body ≡ true
    → Checks mac parse now tolerance signing_secret p body
parts_checked mac parse now tolerance signing_secret (ts_str, v1) body h =
    checked mac parse now tolerance signing_secret (ts_str, v1) body (parse ts_str) refl
      (ground arith)

-- A body that the webhook takes is signed, and recently, under a secret that is set.
pub verify-IsSigned :
    (mac : Text → Text → Text) (parse : Text → Option ℕ) (now tolerance : ℕ)
    (signing_secret header body : Text)
    → verify mac parse now tolerance signing_secret header body ≡ true
    → IsSigned mac parse now tolerance signing_secret header body
unfolding verify
verify-IsSigned mac parse now tolerance signing_secret header body h =
    let ok =
      parts_checked mac parse now (tolerance_or_default tolerance) signing_secret (parts_of header)
        body (ground arith) in
    record {
      has_secret = (is_empty_iff signing_secret).0 (ground arith);
      ts = ok.at;
      parsed = ok.parsed_at;
      not_late = ground (arith, ok.recent);
      not_early = ground (arith, ok.recent);
      hash = ok.hash_of;
    }
