-- ===== src/Vault/Table.antt =====
-- What Resolve gives for what Upsert has stored.
use ai_lab.Prelude.{
  Text, ◌≡◌, refl, Bool, true, false, List, [], ◌∷◌, arith, update_where, select, any, ℕ, subst,
  ◌≢◌, inl, inr, Option, some, ◌++◌, Bool-cases, length, same_refl, same→eq, is_empty_iff, IsBytes,
  base64_encode, insert, ap, none, is_empty, sym, ◌∙◌,
}
use ai_lab.Vault.{
  Aead, SecretRow, is_named, seal, new_secret, upsert_row, upsert, resolve, upsert_sealed,
  open_rows, open_box,
}
use ai_lab.Vault.Box.{IsAead, open_box-seal}

-- UNIQUE (tenant_id, name)
abbrev pub IsUnique : List SecretRow → Type 0
IsUnique [] = Unit
IsUnique (r ∷ rows) = (any (is_named r.tenant_id (r.name ∷ [])) rows ≡ false) × IsUnique rows

-- The row of a name, the rows before it and after it being of other names.
select_none :
    (p : SecretRow → Bool) (rows : List SecretRow) → any p rows ≡ false → select p rows ≡ []
select_none p [] h = refl
select_none p (r ∷ rows) h = ground (arith, select_none p rows)

-- The ciphertexts that Resolve reads for one name.
abbrev pub Holds : Text → Text → Text → List SecretRow → Type 0
Holds tenant_id name ct rows =
    (r : SecretRow) × (select (is_named tenant_id (name ∷ [])) rows ≡ r ∷ [])
    × (r.name ≡ name)
    × (r.value_ciphertext ≡ ct)

select_updated_none :
    (p : SecretRow → Bool) (f : SecretRow → SecretRow) (rows : List SecretRow)
    → any p rows ≡ false
    → select p (update_where p f rows) ≡ []
select_updated_none p f [] h = refl
select_updated_none p f (r ∷ rows) h = ground (arith, select_updated_none p f rows)

select_appended :
    (p : SecretRow → Bool) (rows : List SecretRow) (x : SecretRow)
    → any p rows ≡ false
    → p x ≡ true
    → select p (rows ++ x ∷ []) ≡ x ∷ []
select_appended p [] x h k = ground arith
select_appended p (r ∷ rows) x h k = ground (arith, select_appended p rows x)

module _ (tenant_id name ct : Text) (now : ℕ) where
  abbrev named : SecretRow → Bool
  named = is_named tenant_id (name ∷ [])

  abbrev changed : SecretRow → SecretRow
  changed r = record r { value_ciphertext = ct; updated_at = now }

  named→eq : (r : SecretRow) → named r ≡ true → (r.tenant_id ≡ tenant_id) × (r.name ≡ name)
  named→eq r h = ground (arith, same→eq r.tenant_id tenant_id, same→eq r.name name)

  update_where-Holds :
      (rows : List SecretRow)
      → any named rows ≡ true
      → IsUnique rows
      → Holds tenant_id name ct (update_where named changed rows)
  update_where-Holds [] h u = absurd cc
  update_where-Holds (r ∷ rows) h u = elim (Bool-cases (named r)) [
    | inl e ↦
        let q = named→eq r e in
        let none_left : any named rows ≡ false =
          subst (λ t. any (is_named t (name ∷ [])) rows ≡ false) q.0
            (subst (λ n. any (is_named r.tenant_id (n ∷ [])) rows ≡ false) q.1 u.0) in
        rw (e, e, select_updated_none named changed rows none_left) (changed r, refl, q.1, refl)
    | inr n ↦ rw (n, n) (update_where-Holds rows (ground arith) u.1)
  ]

  upsert_row-Holds :
      (id : Text) (rows : List SecretRow)
      → IsUnique rows
      → Holds tenant_id name ct (upsert_row id now tenant_id name ct rows)
  upsert_row-Holds id rows u = elim (Bool-cases (any named rows)) [
    | inl e ↦ rw e (update_where-Holds rows e u)
    | inr n ↦
        let r = new_secret id now tenant_id name ct in
        rw n (
          r,
          select_appended named rows r n (ground (arith, same_refl tenant_id, same_refl name)),
          refl,
          refl,
        )
  ]

opened_one :
    (g : Aead) (key name value : Text) (r : SecretRow)
    → r.name ≡ name
    → open_box g key r.value_ciphertext ≡ some value
    → open_rows g key (r ∷ []) [] ≡ some ((name, value) ∷ [])
unfolding insert
opened_one g key name value r e o = rw (o, open_rows) (ap (λ n. some ((n, value) ∷ [])) e)

-- After an upsert that reports success, Resolve of that one name under the tenant gives the value
-- that was stored, over a table with one row for each tenant and name.
pub resolve-upsert :
    (g : Aead) (key nonce id : Text) (now : ℕ) (tenant_id name value : Text) (rows : List SecretRow)
    → IsAead g
    → length nonce ≡ g.nonce_size
    → IsBytes nonce
    → IsBytes value
    → name ≢ []
    → IsUnique rows
    → ((upsert g key (some nonce) id now tenant_id name value rows).1 ≡ true)
      × (resolve g key tenant_id
            (name ∷ [])
            (upsert g key (some nonce) id now tenant_id name value rows).0
          ≡ some ((name, value) ∷ []))
unfolding upsert resolve seal
resolve-upsert g key nonce id now tenant_id name value rows law size cn cv given u =
    let ct = base64_encode (nonce ++ g.seal key nonce value) in
    let (r, one, named_so, holds) = upsert_row-Holds tenant_id name ct now id rows u in
    let named : is_empty name ≡ false = (is_empty_iff name).1 given in
    rw named (
      refl,
      ap (λ rs. open_rows g key rs []) one
          ∙ opened_one g key name value r named_so (
              subst (λ c. open_box g key c ≡ some value) (sym holds)
                (open_box-seal g key nonce value ct law size cn cv refl)),
    )

select_updated_other :
    (p q : SecretRow → Bool) (f : SecretRow → SecretRow)
    → ((r : SecretRow) → p r ≡ true → (q r ≡ false) × (q (f r) ≡ false))
    → (rows : List SecretRow) → select q (update_where p f rows) ≡ select q rows
select_updated_other p q f h [] = refl
select_updated_other p q f h (r ∷ rows) = ground (arith, select_updated_other p q f h rows, h r)

select_appended_other :
    (q : SecretRow → Bool) (rows : List SecretRow) (x : SecretRow)
    → q x ≡ false
    → select q (rows ++ x ∷ []) ≡ select q rows
select_appended_other q [] x h = ground arith
select_appended_other q (r ∷ rows) x h = ground (arith, select_appended_other q rows x h)

module _ (tenant_id other : Text) (apart : other ≢ tenant_id) where
  not_other :
      (names : List Text) (r : SecretRow) → r.tenant_id ≡ tenant_id → is_named other names r ≡ false
  not_other names r e = ground (arith, apart, same→eq r.tenant_id other, e)

  upsert_row_other :
      (id : Text) (now : ℕ) (name ct : Text) (names : List Text) (rows : List SecretRow)
      → select (is_named other names) (upsert_row id now tenant_id name ct rows)
        ≡ select (is_named other names) rows
  upsert_row_other id now name ct names rows =
      let p = is_named tenant_id (name ∷ []) in
      elim (Bool-cases (any p rows)) [
        | inl e ↦ rw e (
            select_updated_other p (is_named other names)
              (λ r. record r { value_ciphertext = ct; updated_at = now }) away rows)
        | inr n ↦ rw n (
            select_appended_other (is_named other names) rows (new_secret id now tenant_id name ct)
              (not_other names (new_secret id now tenant_id name ct) refl))
      ]
    where
      away :
          (r : SecretRow)
          → is_named tenant_id (name ∷ []) r ≡ true
          → (is_named other names r ≡ false) × (is_named other names r ≡ false)
      away r h =
          let e : r.tenant_id ≡ tenant_id = ground (arith, same→eq r.tenant_id tenant_id) in
          (not_other names r e, not_other names r e)

  upsert_sealed_other :
      (g : Aead) (key id : Text) (now : ℕ) (name : Text) (ct : Option Text) (names : List Text)
      (rows : List SecretRow)
      → resolve g key other names (upsert_sealed id now tenant_id name ct rows).0
        ≡ resolve g key other names rows
  unfolding resolve
  upsert_sealed_other g key id now name none names rows = refl
  upsert_sealed_other g key id now name (some ct) [] rows = refl
  upsert_sealed_other g key id now name (some ct) (n ∷ ns) rows =
      ap (λ rs. open_rows g key rs []) (upsert_row_other id now name ct (n ∷ ns) rows)

-- An upsert, however it goes, changes nothing of what Resolve gives another tenant.
pub resolve_other :
    (g : Aead) (key : Text) (random : Option Text) (id : Text) (now : ℕ)
    (tenant_id name value other : Text) (names : List Text) (rows : List SecretRow)
    → other ≢ tenant_id
    → resolve g key other names (upsert g key random id now tenant_id name value rows).0
      ≡ resolve g key other names rows
unfolding upsert
resolve_other g key random id now tenant_id name value other names rows apart =
    elim (Bool-cases (is_empty name)) [
      | inl e ↦ rw e refl
      | inr n ↦ rw n (
          upsert_sealed_other tenant_id other apart g key id now name (seal g key random value)
            names rows)
    ]
