-- ===== src/Product/Auth.antt =====
-- `AuthRegistry` of product_service.py: the checks of its configuration, `authenticate` and
-- `policy`. Times are whole seconds. `digest` is SHA-256 in hexadecimal, `strip` is `str.strip`.
pub mod Registry
pub mod Policies
mod Tests
use Prim.Native.Char.{code}
use sigil_pi.Prelude.{
  after_prefix, ℕ, zero, suc, ◌+◌, ◌-◌, ◌*◌, String, Bool, true, false, not, ◌&&◌, ◌||◌, Option,
  none, some, List, [], ◌∷◌, ◌++◌, any, all, leb, ltb, ◌==◌, str_eq, if◌then◌else◌,
}
use sigil_pi.Prelude.Dict.{Dict, get}
use sigil_pi.Agent.Json.{
  Json, Items, ℤ, pos, negsuc, null, integer, string, array, object, nil, cons, lookup, Fields,
}
use sigil_pi.Product.Errors.{ProductError, Reply, ok, err}

pub record Principal : Type 0 where
  pub principal_id : String
  pub tenant_id : String
  pub scopes : List String
  pub tools : List String

-- `not_before_unix` and `expires_unix`, both or neither.
pub record Credential : Type 0 where
  pub digest : String
  pub principal : Principal
  pub validity : Option (ℕ × ℕ)

-- The `ConfigError` messages of the constructor, without the entry's index.
pub data ConfigError : Type 0 where
  lifetime_not_positive not_an_object bad_sha256 duplicate_digest bad_principal bad_tenant
        bad_scopes unknown_scopes bad_tools star_not_alone expiry_required validity_incomplete
        validity_not_integer validity_empty lifetime_exceeded policy_conflict no_credential
        none_active :
      ConfigError

pub data Checked {ℓ} (A : Type ℓ) : Type ℓ where
  passed : A → Checked A
  failed : ConfigError → Checked A

-- The first check that fails ends an entry.
infixl 5 ◌>>=◌
abbrev pub ◌>>=◌ {ℓ κ} :
    {A : Type ℓ} {B : Type κ} (checked : Checked A) (next : A → Checked B) → Checked B
checked >>= next = elim checked [ passed value ↦ next value | failed reason ↦ failed reason ]

abbrev pub known_scope : String → Bool
known_scope s = any (str_eq s) (
    "chat" ∷ "ops:read" ∷ "schedules:read" ∷ "schedules:write" ∷ "sessions:read" ∷ "sessions:delete"
    ∷ [])

abbrev pub is_hex : ℕ → Bool
is_hex c = (leb b'0' c && leb c b'9') || (leb b'a' c && leb c b'f')

-- `[0-9a-f]{n}`
abbrev pub hex_digits : ℕ → String → Bool
hex_digits zero String.[] = true
hex_digits (suc n) (String.◌∷◌ c s) = is_hex (code c) && hex_digits n s
hex_digits _ _ = false

-- A list of strings, or `none`.
unfoldable pub strings_of : Items → Option (List String)
strings_of nil = some []
strings_of (cons (string s) rest) = elim (strings_of rest) [ none ↦ none | some ss ↦ some (s ∷ ss) ]
strings_of (cons _ rest) = none

abbrev pub string_list : Option Json → Option (List String)
string_list (some (array items)) = strings_of items
string_list _ = none

-- `entry.get("tools", [])`
abbrev pub tools_of : Option Json → Option (List String)
tools_of none = some []
tools_of (some j) = string_list (some j)

abbrev pub string_of : Option Json → Option String
string_of (some (string s)) = some s
string_of _ = none

-- Whether `entry.get(key)` is not `None`.
abbrev pub given : Option Json → Bool
given none = false
given (some null) = false
given (some _) = true

-- The two timestamps: integers, the first not negative, the second after it.
abbrev pub window_of : Option Json → Option Json → Checked (ℕ × ℕ)
window_of (some (integer (pos a))) (some (integer (pos b))) =
    if ltb a b then passed (a, b) else failed validity_empty
window_of (some (integer _)) (some (integer _)) = failed validity_empty
window_of _ _ = failed validity_not_integer

abbrev pub within : Option ℕ → ℕ × ℕ → Bool
within none w = true
within (some lifetime) (a, b) = leb (b - a) lifetime

-- The checks of the validity of an entry, in order.
unfoldable pub validity_of : Bool → Option ℕ → Option Json → Option Json → Checked (Option (ℕ × ℕ))
validity_of require_expiry max_lifetime_s not_before expires =
    if require_expiry && not (given not_before && given expires)
    then failed expiry_required
    else if given not_before
    then if given expires
      then elim (window_of not_before expires) [
        | failed e ↦ failed e
        | passed w ↦ if within max_lifetime_s w then passed (some w) else failed lifetime_exceeded
      ]
      else failed validity_incomplete
    else if given expires
    then failed validity_incomplete
    else passed none

abbrev pub includes : List String → String → Bool
includes xs s = any (str_eq s) xs

-- Equality of two `frozenset`s.
abbrev pub same_set : List String → List String → Bool
same_set xs ys = all (includes ys) xs && all (includes xs) ys

-- `"*" in tools and len(tools) != 1`
abbrev pub star_among : List String → Bool
star_among [] = false
star_among (t ∷ []) = false
star_among (t ∷ u ∷ ts) = includes (t ∷ u ∷ ts) "*"

module _ (digest : String → String) (strip : String → String) where
  abbrev pub same_identity : Principal → Principal → Bool
  same_identity p q =
      str_eq (digest p.tenant_id) (digest q.tenant_id) && str_eq p.principal_id q.principal_id

  abbrev pub same_policy : Principal → Principal → Bool
  same_policy p q = same_set p.scopes q.scopes && same_set p.tools q.tools

  -- `identity in identity_policies and identity_policies[identity] != policy`
  abbrev pub conflicts : Principal → Credential → Bool
  conflicts p c = same_identity c.principal p && not (same_policy c.principal p)

  -- `seen_hashes` holds the digests of the credentials so far.
  unfoldable pub sha_of : List Credential → Option Json → Checked String
  sha_of parsed (some (string d)) =
      if hex_digits 64 d
      then if any (λ (c : Credential). str_eq c.digest d) parsed
        then failed duplicate_digest
        else passed d
      else failed bad_sha256
  sha_of parsed _ = failed bad_sha256

  -- A string that is not blank, stripped.
  unfoldable pub name_of : ConfigError → Option Json → Checked String
  name_of e (some (string s)) = if str_eq (strip s) "" then failed e else passed (strip s)
  name_of e _ = failed e

  unfoldable pub scopes_of : Option Json → Checked (List String)
  scopes_of j = elim (string_list j) [
    | none ↦ failed bad_scopes
    | some scopes ↦ if all known_scope scopes then passed scopes else failed unknown_scopes
  ]

  unfoldable pub allowed_of : Option Json → Checked (List String)
  allowed_of j = elim (tools_of j) [
    | none ↦ failed bad_tools
    | some tools ↦ if star_among tools then failed star_not_alone else passed tools
  ]

  -- `identity_policies` is read off the credentials so far: all of one identity have one policy.
  unfoldable pub unless_conflict : List Credential → Credential → Checked Credential
  unless_conflict parsed c =
      if any (conflicts c.principal) parsed then failed policy_conflict else passed c

  unfoldable pub credential_of : Bool → Option ℕ → List Credential → Json → Checked Credential
  unfolding strings_of validity_of sha_of name_of scopes_of allowed_of unless_conflict
  credential_of require_expiry max_lifetime_s parsed (object fields) = do
    sha ← sha_of parsed (lookup "sha256" fields)
    principal ← name_of bad_principal (lookup "principal" fields)
    tenant ← name_of bad_tenant (lookup "tenant" fields)
    scopes ← scopes_of (lookup "scopes" fields)
    tools ← allowed_of (lookup "tools" fields)
    validity ←
        validity_of require_expiry max_lifetime_s (lookup "not_before_unix" fields)
          (lookup "expires_unix" fields)
    unless_conflict parsed (record {
      digest = sha;
      principal = record {
        principal_id = principal;
        tenant_id = tenant;
        scopes = scopes;
        tools = tools;
      };
      validity = validity;
    })
  credential_of require_expiry max_lifetime_s parsed _ = failed not_an_object

  unfoldable pub entries_from :
      Bool → Option ℕ → List Credential → List Json → Checked (List Credential)
  unfolding credential_of
  entries_from require_expiry max_lifetime_s parsed [] = passed parsed
  entries_from require_expiry max_lifetime_s parsed (j ∷ js) =
      elim (credential_of require_expiry max_lifetime_s parsed j) [
        | failed e ↦ failed e
        | passed c ↦ entries_from require_expiry max_lifetime_s (parsed ++ c ∷ []) js
      ]

-- `_active`, at a time in microseconds.
abbrev pub active_at : ℕ → Credential → Bool
active_at now c = elim c.validity [
  | none ↦ true
  | some (a, b) ↦ leb (a * 1000000) now && ltb now (b * 1000000)
]

abbrev pub bad_lifetime : Option ℕ → Bool
bad_lifetime none = false
bad_lifetime (some lifetime) = lifetime == 0

-- The end of the constructor.
unfoldable pub registered : Bool → ℕ → Checked (List Credential) → Checked (List Credential)
registered require_expiry now (failed e) = failed e
registered require_expiry now (passed []) = failed no_credential
registered require_expiry now (passed (c ∷ cs)) =
    if require_expiry && not (any (active_at now) (c ∷ cs))
    then failed none_active
    else passed (c ∷ cs)

-- The constructor, at the time `now`.
unfoldable pub auth_registry :
    (String → String)
    → (String → String)
    → Bool
    → Option ℕ
    → ℕ
    → List Json
    → Checked (List Credential)
unfolding entries_from registered
auth_registry digest strip require_expiry max_lifetime_s now entries =
    if bad_lifetime max_lifetime_s
    then failed lifetime_not_positive
    else registered require_expiry now
        (entries_from digest strip require_expiry max_lifetime_s [] entries)

abbrev unauthorized : String → String → ProductError
unauthorized code message = record {
  status = 401;
  code = code;
  message = message;
  retry_after = none;
}

-- The loop of `authenticate`: the last match.
unfoldable pub last_match : String → ℕ → List Credential → Option Principal → Option Principal
last_match candidate now [] match = match
last_match candidate now (c ∷ cs) match =
    last_match candidate now cs
      (if str_eq candidate c.digest && active_at now c then some c.principal else match)

unfoldable pub authenticate :
    (String → String) → (String → ℕ) → List Credential → Option String → ℕ → Reply Principal
unfolding last_match
authenticate digest encoded_len credentials none now =
    err (unauthorized "authentication_required" "bearer authentication required")
authenticate digest encoded_len credentials (some header) now =
    elim (after_prefix "Bearer " header) [
      | none ↦ err (unauthorized "authentication_required" "bearer authentication required")
      | some token ↦
          if str_eq token "" || ltb 4096 (encoded_len token)
          then err (unauthorized "invalid_credential" "invalid bearer credential")
          else elim (last_match (digest token) now credentials none) [
            | none ↦ err (unauthorized "invalid_credential" "invalid bearer credential")
            | some principal ↦ ok principal
          ]
    ]

abbrev pub has_policy : (String → String) → String → String → ℕ → Credential → Bool
has_policy digest tenant_sha256 principal_id now c =
    active_at now c
    && str_eq c.principal.principal_id principal_id
    && str_eq (digest c.principal.tenant_id) tenant_sha256

-- The first match.
unfoldable pub policy : (String → String) → String → String → ℕ → List Credential → Option Principal
policy digest tenant_sha256 principal_id now [] = none
policy digest tenant_sha256 principal_id now (c ∷ cs) =
    if has_policy digest tenant_sha256 principal_id now c
    then some c.principal
    else policy digest tenant_sha256 principal_id now cs
