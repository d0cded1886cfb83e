-- ===== src/Product/Requests.antt =====
-- The checks of a chat request in product_service.py: `_validate_session`, `_validate_message` and
-- `_chat_request` of `ProductService`. `encoded_len` is `len(text.encode())`.
use Prim.Native.Char.{code}
use sigil_pi.Prelude.{
  ℕ, zero, suc, ◌*◌, String, Bool, true, false, ◌&&◌, ◌||◌, none, some, leb, ltb, str_eq, ◌==◌, all,
  if◌then◌else◌,
}
use sigil_pi.Prelude.Dict.{Dict, get}
use sigil_pi.Agent.Json.{Json, string}
use sigil_pi.Product.Errors.{ProductError, Reply, ok, err}

abbrev pub is_alnum : ℕ → Bool
is_alnum c = (leb b'A' c && leb c b'Z') || (leb b'a' c && leb c b'z') || (leb b'0' c && leb c b'9')

abbrev pub is_session_char : ℕ → Bool
is_session_char c = is_alnum c || c == b'.' || c == b'_' || c == b'-'

-- `[A-Za-z0-9._-]{0,n}`
abbrev pub session_chars : ℕ → String → Bool
session_chars n String.[] = true
session_chars zero (String.◌∷◌ c s) = false
session_chars (suc n) (String.◌∷◌ c s) = is_session_char (code c) && session_chars n s

-- `SESSION_RE.fullmatch`
abbrev pub session_re : String → Bool
session_re String.[] = false
session_re (String.◌∷◌ c s) = is_alnum (code c) && session_chars 127 s

abbrev pub bad_request : String → String → ProductError
bad_request code message = record {
  status = 400;
  code = code;
  message = message;
  retry_after = none;
}

abbrev invalid_session : ProductError
invalid_session =
    bad_request "invalid_session"
      "session must be 1-128 ASCII letters, digits, dot, underscore, or hyphen"

abbrev message_too_large : ProductError
message_too_large = record {
  status = 413;
  code = "message_too_large";
  message = "message exceeds the product limit";
  retry_after = none;
}

module _ (encoded_len : String → ℕ) where
  unfoldable pub validate_session : Json → Reply String
  validate_session (string s) =
      if session_re s
      then if ltb 128 (encoded_len s)
        then err (bad_request "invalid_session" "session is too large")
        else ok s
      else err invalid_session
  validate_session _ = err invalid_session

  unfoldable pub validate_message : Json → Reply String
  validate_message (string s) =
      if str_eq s ""
      then err (bad_request "invalid_message" "message must be a non-empty string")
      else if ltb (256 * 1024) (encoded_len s)
      then err message_too_large
      else ok s
  validate_message _ = err (bad_request "invalid_message" "message must be a non-empty string")

  -- The two checks of `_chat_request`, in order.
  unfoldable pub chat_fields : Json → Json → Reply (String × String)
  unfolding validate_session validate_message
  chat_fields session message = elim (validate_session session) [
    | err e ↦ err e
    | ok s ↦ elim (validate_message message) [ err e ↦ err e | ok m ↦ ok (s, m) ]
  ]

  abbrev pub expected_key : String × Json → Bool
  expected_key p = str_eq p.0 "session" || str_eq p.0 "message"

  unfoldable pub chat_request : Dict Json → Reply (String × String)
  unfolding chat_fields get
  chat_request obj =
      if all expected_key obj
      then elim (get "session" obj) [
        | none ↦ err (bad_request "invalid_request" "expected exactly session and message")
        | some session ↦ elim (get "message" obj) [
          | none ↦ err (bad_request "invalid_request" "expected exactly session and message")
          | some message ↦ chat_fields session message
        ]
      ]
      else err (bad_request "invalid_request" "expected exactly session and message")
