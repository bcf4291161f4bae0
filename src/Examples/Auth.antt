-- ===== src/Examples/Auth.antt =====
-- Concrete requests for internal/auth and internal/tenants.
use ai_lab.Prelude.{
  Text, ℕ, ◌+◌, ◌≡◌, ◌≢◌, ◌↔◌, ◌⊎◌, none, some, [], ◌++◌, txt, Without, split, lookup,
}
use ai_lab.Auth.{Identity, verify_dev, bearer, middleware, cors}
use ai_lab.Auth.Tokens.{verify_dev_iff, dev_token, IsNamed, middleware_gate}
use ai_lab.Auth.Origins.{cors_iff, Lists}

abbrev pub caller : Identity
caller = record { tenant_id = txt "t1"; user_id = txt "u1" }

verify_dev_iff_example :
    (verify_dev (txt "dev:t1:u:1") ≡ some (record { tenant_id = txt "t1"; user_id = txt "u:1" }))
    ↔ ((txt "dev:t1:u:1" ≡ dev_token (record { tenant_id = txt "t1"; user_id = txt "u:1" }))
        × Without b':' (txt "t1")
        × IsNamed (record { tenant_id = txt "t1"; user_id = txt "u:1" }))
verify_dev_iff_example =
    verify_dev_iff (txt "dev:t1:u:1") (record { tenant_id = txt "t1"; user_id = txt "u:1" })

-- A handler that counts its requests.
abbrev counting : Identity → ℕ → ℕ × ℕ
counting i n = (n + 1, 200)

middleware_gate_example :
    (middleware verify_dev counting (txt "Bearer dev:t1:u1") 4 ≡ (4, 401))
    ⊎ ((token : Text) × (i : Identity) × (txt "Bearer dev:t1:u1" ≡ bearer ++ token)
        × (verify_dev token ≡ some i)
        × (middleware verify_dev counting (txt "Bearer dev:t1:u1") 4 ≡ counting i 4))
middleware_gate_example = middleware_gate verify_dev counting (txt "Bearer dev:t1:u1") 4

cors_iff_example :
    ((lookup
          (txt "Access-Control-Allow-Origin")
          (cors (txt "https://a, https://b") (txt "https://b") (txt "GET")).headers
        ≡ some (txt "https://b"))
      ↔ ((txt "https://b" ≡ txt "https://b")
          × (txt "https://b" ≢ [])
          × Lists (txt "https://b") (split b',' (txt "https://a, https://b"))))
    × (((cors (txt "https://a, https://b") (txt "https://b") (txt "GET")).status ≡ none)
        ↔ (txt "GET" ≢ txt "OPTIONS"))
cors_iff_example =
    cors_iff (txt "https://a, https://b") (txt "https://b") (txt "GET") (txt "https://b")
