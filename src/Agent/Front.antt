-- ===== src/Agent/Front.antt =====
-- The HTTP front of the agent: `bind_is_loopback`, `check_auth` and the handler of `serve` in agent.py.
-- Sockets, the counters and the log of requests are left out. The schedule surface, a turn and a
-- streamed turn act on a world `W`.
pub mod Access
mod Tests
use Prim.Native.Char.{code}
use sigil_pi.Prelude.{
  ℕ, ◌*◌, String, Bool, true, false, not, ◌&&◌, ◌||◌, Option, none, some, List, [], ◌∷◌, leb, ◌==◌,
  str_eq, if◌then◌else◌,
}
use sigil_pi.Prelude.Dict.{Dict, get}
use sigil_pi.Agent.Json.{Json, lookup, ℤ, pos, negsuc, Fields, end, field, object}
use sigil_pi.Agent.PyInt.{int}

-- What `turn_with_usage` does: a reply with its usage, `TurnAbandoned`, a `RuntimeError` with its
-- text, or another exception.
pub data Turn : Type 0 where
  replied : List ℕ → ℕ × ℕ → Turn
  abandoned crashed : Turn
  failed : List ℕ → Turn

-- `json.loads` of a body: a value, or a `ValueError`.
pub data Loaded : Type 0 where
  value : Json → Loaded
  malformed : Loaded

pub data Response : Type 0 where
  chat_reply : List ℕ → ℕ × ℕ → Response
  health unauthorized not_found bad_request internal_error nothing streamed : Response
  turn_error : List ℕ → Response
  scheduled : Json → Response

pub record Host (W : Type 0) : Type 0 where
  -- `ipaddress.ip_address(host).is_loopback`, `none` for a `ValueError`
  pub ip_is_loopback : String → Option Bool
  pub lower : String → String
  pub strip : String → String
  pub str_of : Json → String
  -- `self.rfile.read(n)` and `json.loads`
  pub read_body : ℕ → W → Loaded × W
  pub turn : String → String → W → Turn × W
  pub stream : String → String → W → W
  pub schedule : String → W → Response × W

pub record Request : Type 0 where
  pub is_post : Bool
  pub path : String
  pub authorization : Option String
  pub content_length : Option (List ℕ)
  pub accepts_stream : Bool

-- `s.partition(" ")`: what stands before and after the first space.
abbrev pub partition_space : String → String × String
partition_space String.[] = ("", "")
partition_space (String.◌∷◌ c s) =
    let (before, after) = partition_space s in
    if code c == 32 then ("", s) else (String.◌∷◌ c before, after)

-- `auth_token or None`
abbrev pub token_of : Option String → Option String
token_of none = none
token_of (some t) = if str_eq t "" then none else some t

abbrev pub max_request_bytes : ℕ
max_request_bytes = 1024 * 1024

abbrev pub is_schedule_path : String → Bool
is_schedule_path path =
    str_eq path "/schedule" || str_eq path "/schedule/list" || str_eq path "/schedule/remove"

-- `req["session"], req["message"]`
abbrev pub chat_fields : Loaded → Option (Json × Json)
chat_fields (value (object fields)) = elim (lookup "session" fields) [
  | none ↦ none
  | some s ↦ elim (lookup "message" fields) [ none ↦ none | some m ↦ some (s, m) ]
]
chat_fields _ = none

-- `int(self.headers.get("Content-Length", 0))` in range.
abbrev pub in_range : Option ℤ → Option ℕ
in_range (some (pos n)) = if leb n max_request_bytes then some n else none
in_range _ = none

unfoldable pub body_length : Option (List ℕ) → Option ℕ
body_length none = some 0
body_length (some text) = in_range (int text)

abbrev pub response_of : Turn → Response
response_of (replied reply usage) = chat_reply reply usage
response_of abandoned = nothing
response_of (failed text) = turn_error text
response_of crashed = internal_error

module _ {W : Type 0} (host : Host W) where
  unfoldable pub bind_is_loopback : String → Bool
  bind_is_loopback name =
      if str_eq name "localhost" || str_eq name "localhost.localdomain"
      then true
      else elim (host.ip_is_loopback name) [ none ↦ false | some b ↦ b ]

  -- The scheme and the token of a header.
  abbrev pub presents : String → String → Bool
  presents header token =
      let (scheme, presented) = partition_space header in
      str_eq (host.lower scheme) "bearer" && str_eq (host.strip presented) token

  unfoldable pub check_auth : Option String → Option String → Bool
  check_auth header none = true
  check_auth none (some token) = str_eq token ""
  check_auth (some header) (some token) =
      if str_eq token "" then true else if str_eq header "" then false else presents header token

  abbrev pub answered : Turn × W → Response × W
  answered (t, w) = (response_of t, w)

  unfoldable pub chat : Request → W → Response × W
  unfolding body_length
  chat r w = elim (body_length r.content_length) [
    | none ↦ (bad_request, w)
    | some n ↦
        let (loaded, w') = host.read_body n w in
        elim (chat_fields loaded) [
          | none ↦ (bad_request, w')
          | some (session, message) ↦
              if r.accepts_stream
              then (streamed, host.stream (host.str_of session) (host.str_of message) w')
              else answered (host.turn (host.str_of session) (host.str_of message) w')
        ]
  ]

  abbrev pub get_ : Request → W → Response × W
  get_ r w = (if str_eq r.path "/health" then health else not_found, w)

  unfoldable pub post : Bool → Request → W → Response × W
  unfolding chat
  post has_scheduler r w =
      if is_schedule_path r.path
      then if has_scheduler then host.schedule r.path w else (not_found, w)
      else if str_eq r.path "/chat"
      then chat r w
      else (not_found, w)

  -- `do_GET` and `do_POST`: the token comes first.
  unfoldable pub handle : Option String → Bool → Request → W → Response × W
  unfolding check_auth post
  handle token has_scheduler r w =
      if check_auth r.authorization token
      then if r.is_post then post has_scheduler r w else get_ r w
      else (unauthorized, w)

  -- `serve`: the token that its handler asks for, or its `ValueError`.
  unfoldable pub serve : String → Option String → Option (Option String)
  unfolding bind_is_loopback
  serve bind auth_token = elim (token_of auth_token) [
    | some t ↦ some (some t)
    | none ↦ if bind_is_loopback bind then some none else none
  ]
