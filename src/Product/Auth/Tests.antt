-- ===== src/Product/Auth/Tests.antt =====
-- A registry of two credentials, and the theorems on registries at it. A digest is stood for by its
-- text.
use sigil_pi.Prelude.{after_prefix, ℕ, ◌≡◌, ◌≢◌, ◌≤◌, refl, String, true, some, List, [], ◌∷◌, Each}
use sigil_pi.Agent.Json.{Json, pos, integer, string, array, object, nil, cons, field, end}
use sigil_pi.Product.Errors.{ok}
use sigil_pi.Product.Auth.{
  Principal, policy, same_policy, Credential, passed, failed, duplicate_digest, active_at,
  auth_registry, registered, entries_from, credential_of, validity_of, sha_of, name_of, scopes_of,
  allowed_of, strings_of, unless_conflict, authenticate, last_match,
}
use sigil_pi.Product.Auth.Policies.{policy_agrees}
use sigil_pi.Product.Auth.Registry.{
  here, there, In, Pairwise, IsAccepted, authenticate_sound, auth_registry-IsAccepted,
}

abbrev same : String → String
same s = s

abbrev nine : String → ℕ
nine s = 9

abbrev token_a : String
token_a = "aaaaaaaaaaaaaaaaaaaaaaaaaaaaaaaaaaaaaaaaaaaaaaaaaaaaaaaaaaaaaaaa"

abbrev token_b : String
token_b = "bbbbbbbbbbbbbbbbbbbbbbbbbbbbbbbbbbbbbbbbbbbbbbbbbbbbbbbbbbbbbbbb"

abbrev entry : String → Json
entry digest = object (
    field "sha256" (string digest) (
      field "principal" (string "ops") (
        field "tenant" (string "acme") (
          field "scopes" (array (cons (string "chat") nil)) (
            field "not_before_unix" (integer (pos 10))
              (field "expires_unix" (integer (pos 20)) end))))))

abbrev credential : String → Credential
credential digest = record {
  digest = digest;
  principal = record { principal_id = "ops"; tenant_id = "acme"; scopes = "chat" ∷ []; tools = [] };
  validity = some (10, 20);
}

abbrev both : List Credential
both = credential token_a ∷ credential token_b ∷ []

accepted :
    auth_registry same same true (some 30) 15000000 (entry token_a ∷ entry token_b ∷ [])
    ≡ passed both
unfolding auth_registry registered entries_from credential_of validity_of sha_of name_of scopes_of
    allowed_of strings_of unless_conflict
accepted = refl

twice :
    auth_registry same same true (some 30) 15000000 (entry token_a ∷ entry token_a ∷ [])
    ≡ failed duplicate_digest
unfolding auth_registry registered entries_from credential_of validity_of sha_of name_of scopes_of
    allowed_of strings_of unless_conflict
twice = refl

auth_registry-IsAccepted_example :
    (both ≢ [])
    × Pairwise same same true (some 30) both
    × Each (IsAccepted same same true (some 30)) both
auth_registry-IsAccepted_example =
    auth_registry-IsAccepted same same true (some 30) 15000000 (entry token_a ∷ entry token_b ∷ [])
      both accepted

abbrev bearer : String
bearer = "Bearer aaaaaaaaaaaaaaaaaaaaaaaaaaaaaaaaaaaaaaaaaaaaaaaaaaaaaaaaaaaaaaaa"

known : authenticate same nine both (some bearer) 15000000 ≡ ok (credential token_a).principal
unfolding authenticate last_match
known = refl

authenticate_sound_example :
    (h token : String) × (c : Credential) × (some bearer ≡ some h)
    × (after_prefix "Bearer " h ≡ some token)
    × (nine token ≤ 4096)
    × In c both
    × (c.digest ≡ same token)
    × (active_at 15000000 c ≡ true)
    × (c.principal ≡ (credential token_a).principal)
authenticate_sound_example =
    authenticate_sound same nine both (some bearer) 15000000 (credential token_a).principal known

policy_agrees_run :
    (q : Principal) × (policy same "acme" "ops" 15000000 both ≡ some q)
    × (same_policy same same q (credential token_b).principal ≡ true)
policy_agrees_run =
    policy_agrees same same true (some 30) "acme" "ops" 15000000 both (credential token_b)
      auth_registry-IsAccepted_example.1 (there here) refl
