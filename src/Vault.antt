-- ===== src/Vault.antt =====
-- Secrets: the box that seals them (internal/cryptobox/crypto.go), their table (internal/secrets/
-- repo.go), their HTTP surface (handlers.go) and their projection into a cluster (materialize.go).
-- AES-GCM is a parameter; a nonce is an argument, none where the reader of random bytes fails.
pub mod Box
pub mod Table
pub mod Projection
pub mod Surface
use ai_lab.Prelude.{
  ℕ, Bool, true, false, ◌&&◌, Option, none, some, List, [], ◌∷◌, ◌++◌, map, ltb, ◌==◌,
  if◌then◌else◌, length, take, drop, Text, is_empty, same, hex_decode, base64_encode, base64_decode,
  update_where, select, any, delete_where, insert,
}

-- cipher.AEAD without additional data: a key and a nonce, then the text.
pub record Aead : Type 0 where
  pub nonce_size : ℕ
  pub seal : Text → Text → Text → Text
  pub open_sealed : Text → Text → Text → Option Text

-- NewFromHex: the key of the box, or none for an error.
unfoldable pub new_from_hex : Text → Option Text
new_from_hex key_hex = if is_empty key_hex then none else elim (hex_decode key_hex) [
  | none ↦ none
  | some key ↦ if length key == 32 then some key else none
]

module _ (g : Aead) (key : Text) where
  -- Box.Seal
  unfoldable pub seal : Option Text → Text → Option Text
  seal none plaintext = none
  seal (some nonce) plaintext = some (base64_encode (nonce ++ g.seal key nonce plaintext))

  -- Box.Open, given what the payload decodes to
  abbrev pub open_raw : Option Text → Option Text
  open_raw none = none
  open_raw (some raw) =
      if ltb (length raw) g.nonce_size
      then none
      else g.open_sealed key (take g.nonce_size raw) (drop g.nonce_size raw)

  -- Box.Open
  unfoldable pub open_box : Text → Option Text
  open_box payload = open_raw (base64_decode payload)

-- A row of secrets; Repo's Secret is a row without its ciphertext.
pub record SecretRow : Type 0 where
  pub id : Text
  pub tenant_id : Text
  pub name : Text
  pub value_ciphertext : Text
  pub created_at : ℕ
  pub updated_at : ℕ

pub record Secret : Type 0 where
  pub id : Text
  pub tenant_id : Text
  pub name : Text
  pub created_at : ℕ
  pub updated_at : ℕ

abbrev pub scan_secret : SecretRow → Secret
scan_secret r = record {
  id = r.id;
  tenant_id = r.tenant_id;
  name = r.name;
  created_at = r.created_at;
  updated_at = r.updated_at;
}

-- WHERE tenant_id = $1 AND name = ANY($2)
abbrev pub is_named : Text → List Text → SecretRow → Bool
is_named tenant_id names r = same r.tenant_id tenant_id && any (same r.name) names

abbrev pub new_secret : Text → ℕ → Text → Text → Text → SecretRow
new_secret id now tenant_id name ciphertext = record {
  id = id;
  tenant_id = tenant_id;
  name = name;
  value_ciphertext = ciphertext;
  created_at = now;
  updated_at = now;
}

-- INSERT … ON CONFLICT (tenant_id, name) DO UPDATE
abbrev pub upsert_row : Text → ℕ → Text → Text → Text → List SecretRow → List SecretRow
upsert_row id now tenant_id name ciphertext rows =
    if any (is_named tenant_id (name ∷ [])) rows
    then update_where (is_named tenant_id (name ∷ []))
        (λ r. record r { value_ciphertext = ciphertext; updated_at = now }) rows
    else rows ++ new_secret id now tenant_id name ciphertext ∷ []

-- Repo.Upsert once the value is sealed, or not; false is an error.
abbrev pub upsert_sealed :
    Text → ℕ → Text → Text → Option Text → List SecretRow → List SecretRow × Bool
upsert_sealed id now tenant_id name none rows = (rows, false)
upsert_sealed id now tenant_id name (some ct) rows =
    (upsert_row id now tenant_id name ct rows, true)

-- Repo.Upsert
unfoldable pub upsert :
    Aead
    → Text
    → Option Text
    → Text
    → ℕ
    → Text
    → Text
    → Text
    → List SecretRow
    → List SecretRow × Bool
unfolding seal
upsert g key nonce id now tenant_id name value rows =
    if is_empty name
    then (rows, false)
    else upsert_sealed id now tenant_id name (seal g key nonce value) rows

-- ORDER BY name, under the database's collation
abbrev pub insert_by_name : (Text → Text → Bool) → Secret → List Secret → List Secret
insert_by_name before s [] = s ∷ []
insert_by_name before s (x ∷ xs) =
    let rest = insert_by_name before s xs in if before x.name s.name then x ∷ rest else s ∷ x ∷ xs

abbrev pub by_name : (Text → Text → Bool) → List Secret → List Secret
by_name before [] = []
by_name before (s ∷ ss) = insert_by_name before s (by_name before ss)

-- Repo.List
unfoldable pub list_secrets : (Text → Text → Bool) → Text → List SecretRow → List Secret
list_secrets before tenant_id rows =
    by_name before (map scan_secret (select (λ r. same r.tenant_id tenant_id) rows))

-- Repo.Delete: false is db.ErrNotFound.
unfoldable pub delete_secret : Text → Text → List SecretRow → List SecretRow × Bool
delete_secret tenant_id name rows =
    (delete_where (is_named tenant_id (name ∷ [])) rows, any (is_named tenant_id (name ∷ [])) rows)

-- The loop of Resolve: the map so far.
abbrev pub open_rows :
    Aead → Text → List SecretRow → List (Text × Text) → Option (List (Text × Text))
open_rows g key [] out = some out
open_rows g key (r ∷ rs) out = elim (open_box g key r.value_ciphertext) [
  | none ↦ none
  | some plain ↦ open_rows g key rs (insert r.name plain out)
]

-- Repo.Resolve
unfoldable pub resolve :
    Aead → Text → Text → List Text → List SecretRow → Option (List (Text × Text))
unfolding open_box
resolve g key tenant_id [] rows = some []
resolve g key tenant_id (n ∷ ns) rows =
    open_rows g key (select (is_named tenant_id (n ∷ ns)) rows) []
