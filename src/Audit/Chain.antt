-- ===== src/Audit/Chain.antt =====
-- `entry_hash`, `sign_entry`, `verify_chain` and `AuditLog.append_or_raise` of agent.py. A record
-- is a JSON object. `canonical` is the sorted, tight `json.dumps` of a record, `sha256` and `hmac`
-- are the hashes in hexadecimal.
pub mod Append
pub mod Tamper
mod Tests
use sigil_pi.Prelude.{
  ℕ, suc, ◌+◌, String, Bool, true, false, Option, none, some, List, [], ◌∷◌, ◌==◌, str_eq,
  if◌then◌else◌,
}
use sigil_pi.Prelude.Dict.{Dict, get, without}
use sigil_pi.Agent.Json.{
  Json, ℤ, pos, negsuc, null, boolean, integer, float, string, array, object, nil, end,
}

abbrev pub Record : Type 0
Record = Dict Json

-- The 64 zeros that the first record links to.
abbrev pub genesis_hash : String
genesis_hash = "0000000000000000000000000000000000000000000000000000000000000000"

-- What the module takes from Python's `json`, `hashlib` and `hmac`.
pub record Hashing (Bytes Key : Type 0) : Type 0 where
  pub canonical : Record → Bytes
  pub sha256 : Bytes → String
  pub hmac : Key → String → String
  -- `x == n` for a float, by its literal, and an integer
  pub float_is : String → ℕ → Bool

-- The problems that `verify_chain` names, each with the index of the record.
pub data Verdict : Type 0 where
  verified : Verdict
  broken_link bad_seq unsigned bad_signature : ℕ → Verdict
  -- `compare_digest` raises on a signature that is no text
  type_error : Verdict

-- `r.get("prev_hash") == expected`
abbrev pub is_text : Option Json → String → Bool
is_text (some (string s)) expected = str_eq s expected
is_text _ expected = false

abbrev pub int_is : ℤ → ℕ → Bool
int_is (pos m) n = m == n
int_is (negsuc m) n = false

abbrev pub bool_is : Bool → ℕ → Bool
bool_is true n = n == 1
bool_is false n = n == 0

-- `not sig` for `sig = r.get("sig")`
abbrev pub is_falsy : (String → ℕ → Bool) → Option Json → Bool
is_falsy float_is none = true
is_falsy float_is (some null) = true
is_falsy float_is (some (boolean true)) = false
is_falsy float_is (some (boolean false)) = true
is_falsy float_is (some (integer n)) = int_is n 0
is_falsy float_is (some (float x)) = float_is x 0
is_falsy float_is (some (string s)) = str_eq s ""
is_falsy float_is (some (array nil)) = true
is_falsy float_is (some (array _)) = false
is_falsy float_is (some (object end)) = true
is_falsy float_is (some (object _)) = false

module _ {Bytes Key : Type 0} (H : Hashing Bytes Key) where
  -- `r.get("seq") == i`; Python's `True` and `False` equal 1 and 0.
  abbrev pub is_number : Option Json → ℕ → Bool
  is_number (some (integer n)) i = int_is n i
  is_number (some (boolean b)) i = bool_is b i
  is_number (some (float x)) i = H.float_is x i
  is_number _ i = false

  unfoldable pub entry_hash : Record → String
  entry_hash r = H.sha256 (H.canonical r)

  unfoldable pub sign_entry : Record → Key → String
  unfolding entry_hash
  sign_entry r key = H.hmac key (entry_hash r)

  -- `compare_digest` of the record's signature with that of the record without it.
  unfoldable pub check_digest : Key → ℕ → Option Json → Record → Verdict
  check_digest key i (some (string s)) r =
      if str_eq s (sign_entry (without "sig" r) key) then verified else bad_signature i
  check_digest key i _ r = type_error

  unfoldable pub check_signature : Option Key → ℕ → Record → Verdict
  unfolding check_digest
  check_signature none i r = verified
  check_signature (some key) i r =
      if is_falsy H.float_is (get "sig" r) then unsigned i else check_digest key i (get "sig" r) r

  -- One round of the loop: the checks of record `i`.
  unfoldable pub check_record : Option Key → String → ℕ → Record → Verdict
  check_record key expected i r =
      if is_text (get "prev_hash" r) expected
      then (if is_number (get "seq" r) i then check_signature key i r else bad_seq i)
      else broken_link i

  -- The loop from record `i` on, which has to link to `expected`.
  unfoldable pub verify_from : Option Key → String → ℕ → List Record → Verdict
  verify_from key expected i [] = verified
  verify_from key expected i (r ∷ rs) =
      let rest = verify_from key (entry_hash r) (suc i) rs in
      elim (check_record key expected i r) [ verified ↦ rest | problem ↦ problem ]

  unfoldable pub verify_chain : List Record → Option Key → Verdict
  verify_chain records key = verify_from key genesis_hash 0 records

  -- The hash that the record after these has to link to.
  unfoldable pub head_hash : String → List Record → String
  head_hash expected [] = expected
  head_hash expected (r ∷ rs) = head_hash (entry_hash r) rs
