-- ===== src/Examples/Tenants.antt =====
-- A concrete organization for internal/tenants.
use ai_lab.Prelude.{
  Text, ℕ, ◌-◌, ◌≡◌, refl, true, false, Option, none, some, [], ◌∷◌, length, txt, same, split,
  cut_prefix, trim_space, hex_digit, hex_decode, any,
}
use ai_lab.Tenants.{Registry, get_tenant, of_tenant, Kind, WorkosEvent, dispatch, verify}
use ai_lab.Tenants.Signatures.{IsSigned, verify-IsSigned}
use ai_lab.Tenants.Removal.{deletion_unaudited}
use ai_lab.Examples.Agents.{call_1}
use ai_lab.Examples.Audit.{trail_1}

-- A keyed hash of one byte, and a reader of one digit.
abbrev toy_hash : Text → Text → Text
toy_hash key body = length body ∷ []

abbrev toy_parse : Text → Option ℕ
toy_parse [] = none
toy_parse (c ∷ s) = some (c - b'0')

verify-IsSigned_example :
    IsSigned toy_hash toy_parse 5000000001 0 (txt "k") (txt "t=5, v1=04") (txt "{}")
unfolding split trim_space cut_prefix hex_decode hex_digit same verify
verify-IsSigned_example =
    verify-IsSigned toy_hash toy_parse 5000000001 0 (txt "k") (txt "t=5, v1=04") (txt "{}") refl

abbrev registry_1 : Registry
registry_1 = record {
  tenants = record { id = txt "t1"; slug = txt "org_1"; name = txt "Org"; created_at = 0 } ∷ [];
  trail = trail_1;
}

abbrev deleted_org : WorkosEvent
deleted_org = record {
  event = txt "organization.deleted";
  org_id = txt "org_1";
  slug = [];
  name = [];
}

deletion_unaudited_example :
    (get_tenant
        (txt "t1")
        (dispatch call_1 (txt "t1") deleted_org Kind.deleted true registry_1).0.tenants
      ≡ none)
    × (any
          (of_tenant (txt "t1"))
          (dispatch call_1 (txt "t1") deleted_org Kind.deleted true registry_1).0.trail.events
        ≡ false)
unfolding dispatch
deletion_unaudited_example = deletion_unaudited call_1 (txt "t1") deleted_org true registry_1 refl
