-- ===== src/Schedule/Table.antt =====
-- From the creation of a webhook to a delivery that its secret signs (internal/triggers).
use ai_lab.Prelude.{
  Text, ◌<◌, ◌≡◌, ◌≢◌, true, false, Option, some, List, [], ◌∷◌, ◌++◌, arith, length, txt,
  same_refl, IsBytes, hex_encode, select_one, any, refl, ap, ◌∙◌, is_empty, same, same_iff,
  is_empty_iff, cut_prefix-append, hex_decode-encode,
}
use ai_lab.Launch.Webhook.{hook, verify_signature, signed_hex, all_zero, matches_mac}
use ai_lab.Schedule.{
  Trigger, TriggerRow, kind_webhook, NewTrigger, holds_name, create_trigger, is_webhook,
  find_webhook_for_verification, scan_trigger, is_acceptable, trigger_row, insert_sealed,
  opened_hook, hook_found,
}

appended :
    (agent_id name : Text) (rows : List TriggerRow) (r : TriggerRow)
    → any (holds_name agent_id name) rows ≡ false
    → is_webhook agent_id name r ≡ true
    → select_one (is_webhook agent_id name) (rows ++ r ∷ []) ≡ some r
appended agent_id name [] r free ok = ground arith
appended agent_id name (x ∷ rows) r free ok = ground (arith, appended agent_id name rows r)

stored :
    (seal : Text → Option Text) (n : NewTrigger) (raw ct : Text) (rows : List TriggerRow)
    → seal (hex_encode raw) ≡ some ct
    → n.kind ≡ kind_webhook
    → n.name ≢ []
    → any (holds_name n.agent_id n.name) rows ≡ false
    → create_trigger seal n (some raw) rows ≡ (
      rows ++ trigger_row n (some ct) ∷ [],
      some (scan_trigger (trigger_row n (some ct)), hex_encode raw),
    )
unfolding create_trigger
stored seal n raw ct rows seals kind given free =
    let is_hook : same n.kind kind_webhook ≡ true = (same_iff n.kind kind_webhook).1 kind in
    let ok : is_acceptable n ≡ true = ground (arith, is_hook, is_empty_iff n.name) in
    rw (ok, is_hook) (ap (λ o. insert_sealed n (hex_encode raw) o rows) seals ∙ rw free refl)

found_hook :
    (open_box : Text → Option Text) (n : NewTrigger) (ct plain : Text) (rows : List TriggerRow)
    → ct ≢ []
    → open_box ct ≡ some plain
    → n.kind ≡ kind_webhook
    → any (holds_name n.agent_id n.name) rows ≡ false
    → find_webhook_for_verification open_box n.agent_id n.name
        (rows ++ trigger_row n (some ct) ∷ [])
      ≡ hook n.id n.tenant_id n.name plain
unfolding find_webhook_for_verification
found_hook open_box n ct plain rows full opens kind free =
    let r = trigger_row n (some ct) in
    let named : is_webhook n.agent_id n.name r ≡ true =
      ground
        (arith, same_refl n.agent_id, same_refl n.name, (same_iff n.kind kind_webhook).1 kind) in
    let there : is_empty ct ≡ false = (is_empty_iff ct).1 full in
    ap (hook_found open_box) (appended n.agent_id n.name rows r free named)
    ∙ rw there (ap (opened_hook r) opens)

-- A webhook with random bytes for its secret is stored, unless its name is empty or taken, and the
-- receiver then finds it under its agent and name, with its id, its tenant and just the secret that
-- its creator is shown, if the box opens what it seals, to something that is not empty.
pub find-create_trigger :
    (seal open_box : Text → Option Text) (n : NewTrigger) (raw ct : Text) (rows : List TriggerRow)
    → seal (hex_encode raw) ≡ some ct
    → ct ≢ []
    → open_box ct ≡ some (hex_encode raw)
    → n.kind ≡ kind_webhook
    → n.name ≢ []
    → any (holds_name n.agent_id n.name) rows ≡ false
    → let out = create_trigger seal n (some raw) rows in
      (t : Trigger) × (out.1 ≡ some (t, hex_encode raw))
      × (find_webhook_for_verification open_box n.agent_id n.name out.0
          ≡ hook n.id n.tenant_id n.name (hex_encode raw))
find-create_trigger seal open_box n raw ct rows seals full opens kind given free =
    rw (stored seal n raw ct rows seals kind given free) (
      scan_trigger (trigger_row n (some ct)),
      refl,
      found_hook open_box n ct (hex_encode raw) rows full opens kind free,
    )

-- The header of a delivery that is signed by a secret, for the keyed hash.
abbrev pub signature : (Text → Text → Text) → Text → Text → Text
signature mac secret body = txt "sha256=" ++ hex_encode (mac secret body)

same_hash : (h : Text) → 0 < length h → all_zero h ≡ false → matches_mac (some h) h ≡ true
same_hash h long some_bit = ground (arith, same_refl h)

-- A delivery that carries the keyed hash of its body under the secret is taken, if the hash is made
-- of bytes, and neither empty nor all zero.
pub verify_signature_signed :
    (mac : Text → Text → Text) (plain body : Text)
    → IsBytes (mac plain body)
    → 0 < length (mac plain body)
    → all_zero (mac plain body) ≡ false
    → verify_signature mac (signature mac plain body) body plain ≡ true
unfolding verify_signature
verify_signature_signed mac plain body bytes long some_bit =
    let h = mac plain body in
    ap (λ o. matches_mac (signed_hex o) h) (cut_prefix-append (txt "sha256=") (hex_encode h))
    ∙ (ap (λ o. matches_mac o h) (hex_decode-encode h bytes) ∙ same_hash h long some_bit)
