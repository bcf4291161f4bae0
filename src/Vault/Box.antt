-- ===== src/Vault/Box.antt =====
-- What is sealed opens to itself.
use ai_lab.Prelude.{
  ◌≡◌, some, length, Text, IsBytes, ◌<◌, subst, false, ◌++◌, arith, ltb, take, drop, length-append,
  take-append_exact, drop-append_exact, All-append, base64_encode, base64_decode-encode, ap, ◌∙◌,
}
use ai_lab.Vault.{Aead, seal, open_box, open_raw}

-- What the package crypto/cipher documents of an AEAD: Open undoes Seal, and bytes give bytes.
pub record IsAead (g : Aead) : Type 0 where
  pub opens :
      (key nonce plaintext : Text)
      → length nonce ≡ g.nonce_size
      → g.open_sealed key nonce (g.seal key nonce plaintext) ≡ some plaintext
  pub bytes :
      (key nonce plaintext : Text) → IsBytes plaintext → IsBytes (g.seal key nonce plaintext)

opened :
    (g : Aead) (key nonce plaintext : Text)
    → IsAead g
    → length nonce ≡ g.nonce_size
    → IsBytes nonce
    → IsBytes plaintext
    → open_box g key (base64_encode (nonce ++ g.seal key nonce plaintext)) ≡ some plaintext
unfolding open_box
opened g key nonce plaintext law size clean_nonce clean =
    let ct = g.seal key nonce plaintext in
    let raw = nonce ++ ct in
    let long : ltb (length raw) g.nonce_size ≡ false =
      ground (arith, length-append nonce ct, size) in
    let fst : take g.nonce_size raw ≡ nonce =
      subst (λ n. take n raw ≡ nonce) size (take-append_exact nonce ct) in
    let snd : drop g.nonce_size raw ≡ ct =
      subst (λ n. drop n raw ≡ ct) size (drop-append_exact nonce ct) in
    ap (open_raw g key) (
      base64_decode-encode raw
        (All-append (λ c. c < 256) nonce ct clean_nonce (law.bytes key nonce plaintext clean)))
    ∙ rw (long, fst, snd) (law.opens key nonce plaintext size)

-- A text sealed under a key and a nonce of the right size opens under that key to itself.
pub open_box-seal :
    (g : Aead) (key nonce plaintext payload : Text)
    → IsAead g
    → length nonce ≡ g.nonce_size
    → IsBytes nonce
    → IsBytes plaintext
    → seal g key (some nonce) plaintext ≡ some payload
    → open_box g key payload ≡ some plaintext
unfolding seal
open_box-seal g key nonce plaintext payload law size clean_nonce clean h =
    let same_text : base64_encode (nonce ++ g.seal key nonce plaintext) ≡ payload = cc in
    subst (λ p. open_box g key p ≡ some plaintext) same_text
      (opened g key nonce plaintext law size clean_nonce clean)
