-- ===== src/Examples/Vault.antt =====
-- A toy cipher, which shows the text that it seals, and one secret.
use ai_lab.Prelude.{
  ◌≡◌, refl, true, some, List, [], ◌∷◌, arith, txt, same, same→ne, base64_encode, base64_decode,
  lookup,
}
use ai_lab.Vault.{Aead, SecretRow, upsert, resolve}
use ai_lab.Vault.Box.{IsAead}
use ai_lab.Vault.Table.{resolve_other}
use ai_lab.Vault.Projection.{Kube, KubeCall, run_secret, for_run, project_secrets}
use ai_lab.Vault.Projection.Contents.{stored_is_projected, HasJust}

abbrev plain_box : Aead
plain_box = record {
  nonce_size = 1;
  seal = λ key nonce plaintext. plaintext;
  open_sealed = λ key nonce sealed. some sealed;
}

plain_box-IsAead : IsAead plain_box
plain_box-IsAead = record {
  opens = λ key nonce plaintext size. refl;
  bytes = λ key nonce plaintext clean. clean;
}

abbrev kube_1 : Kube
kube_1 = record { namespaces = []; secrets = [] }

abbrev all_ok : KubeCall
all_ok = record { namespace_ok = true; create_ok = true; get_ok = true; update_ok = true }

abbrev stored_rows : List SecretRow
stored_rows =
    (upsert plain_box [] (some (7 ∷ [])) (txt "s1") 4 (txt "t1") (txt "KEY") (txt "v") []).0

stored_is_projected_example :
    HasJust
      (txt "t1")
      (for_run (txt "r1"))
      ((txt "KEY", txt "v") ∷ [])
      kube_1
      (project_secrets
        (λ ns. resolve plain_box [] (txt "t1") ns stored_rows)
        all_ok
        (txt "t1")
        (for_run (txt "r1"))
        (txt "KEY" ∷ [])
        kube_1).0
unfolding project_secrets resolve upsert same base64_decode base64_encode lookup
stored_is_projected_example =
    stored_is_projected plain_box [] (7 ∷ []) (txt "s1") 4 (txt "t1") (txt "KEY") (txt "v") []
      all_ok (for_run (txt "r1")) kube_1 (run_secret (txt "r1")) plain_box-IsAead refl
      (omega arith, tt) (omega arith, tt) (same→ne (txt "KEY") [] refl) tt refl

resolve_other_example :
    resolve plain_box [] (txt "t2") (txt "KEY" ∷ []) stored_rows
    ≡ resolve plain_box [] (txt "t2") (txt "KEY" ∷ []) []
unfolding same
resolve_other_example =
    resolve_other plain_box [] (some (7 ∷ [])) (txt "s1") 4 (txt "t1") (txt "KEY") (txt "v")
      (txt "t2") (txt "KEY" ∷ []) [] (same→ne (txt "t2") (txt "t1") refl)
