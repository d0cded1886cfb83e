-- ===== src/Runtime/Client.antt =====
-- `ProductionSigilMCP` of runtime_client.py: requests to one compiler over its pipes. Times are in
-- microseconds, a time below 0 counts as 0, and what is left of a killed process is reaped with it.
pub mod Stream
mod Tests
use sigil_pi.Prelude.{
  ℕ, zero, suc, min, String, Bool, true, false, not, ◌&&◌, Option, none, some, leb, ◌==◌, str_eq,
  if◌then◌else◌,
}
use sigil_pi.Agent.Json.{
  Json, null, boolean, integer, float, pos, string, array, object, Items, nil, cons, Fields, end,
  field, lookup,
}
use sigil_pi.Runtime.{
  Outcome, returned, raised, Failure, protocol_error, client_error, other_error, client_timeout,
}

-- `readline` and `json.loads`: the end of the stream, no JSON, or a value.
pub data Line : Type 0 where
  ended malformed : Line
  doc : Json → Line

pub record Pipes (W : Type 0) : Type 0 where
  -- `false` is an `OSError`
  pub write : Fields → W → Bool × W
  -- `select` on the output, with a timeout
  pub select : ℕ → W → Bool × W
  pub readline : W → Line × W
  pub kill : W → W
  -- `response.get("id") == request_id` on a float
  pub float_is : String → ℕ → Bool
  -- `json.loads` of a text
  pub loads : String → Option Json

pub record Client : Type 0 where
  pub next_id : ℕ
  pub closed : Bool

abbrev pub request_fields : ℕ → String → Json → Fields
request_fields id method params =
    field "jsonrpc" (string "2.0")
      (field "id" (integer (pos id)) (field "method" (string method) (field "params" params end)))

-- Whose deadline it is: the caller's, where it is not above the client's.
abbrev pub budget_expired : ℕ → Option ℕ → Bool
budget_expired base none = false
budget_expired base (some t) = leb t base

abbrev pub allowed : ℕ → Option ℕ → ℕ
allowed base none = base
allowed base (some t) = min base t

abbrev pub is_version : Option Json → Bool
is_version (some (string s)) = str_eq s "2.0"
is_version _ = false

-- The arguments of `forge`; the grants where there are any.
abbrev pub with_grants : Option Json → Fields
with_grants none = end
with_grants (some grants) = field "grants" grants end

abbrev pub forge_arguments : String → String → ℕ → Option Json → Fields
forge_arguments source input fuel grants = field "source" (string source) (
    field "input" (string input) (
      field "fuel" (integer (pos fuel))
        (field "host_profile" (string "ephemeral") (with_grants grants))))

module _ {W : Type 0} (pipes : Pipes W) where
  abbrev pub id_is : Option Json → ℕ → Bool
  id_is (some (integer (pos n))) id = n == id
  id_is (some (boolean true)) id = id == 1
  id_is (some (boolean false)) id = id == 0
  id_is (some (float x)) id = pipes.float_is x id
  id_is _ id = false

  abbrev pub answers : Fields → ℕ → Bool
  answers f id = is_version (lookup "jsonrpc" f) && id_is (lookup "id" f) id

  abbrev pub result_of : Option Json → Option Json → Outcome Json
  result_of (some error) result = raised protocol_error
  result_of none none = raised protocol_error
  result_of none (some value) = returned value

  unfoldable pub on_line : ℕ → Line → Outcome Json
  on_line id ended = raised client_error
  on_line id malformed = raised client_error
  on_line id (doc (object f)) =
      if answers f id then result_of (lookup "error" f) (lookup "result" f) else raised client_error
  on_line id (doc _) = raised other_error

  abbrev pub killed : ℕ → Bool → W → Outcome Json × Client × W
  killed id expired w =
      (raised (client_timeout expired), record { next_id = suc id; closed = true }, pipes.kill w)

  abbrev pub open_client : ℕ → Client
  open_client id = record { next_id = suc id; closed = false }

  abbrev pub read_line : ℕ → Line × W → Outcome Json × Client × W
  read_line id (line, w) = (on_line id line, open_client id, w)

  unfoldable pub after_select : ℕ → Bool → Bool × W → Outcome Json × Client × W
  unfolding on_line
  after_select id expired (true, w) = read_line id (pipes.readline w)
  after_select id expired (false, w) = killed id expired w

  unfoldable pub after_write : ℕ → ℕ → Option ℕ → Bool × W → Outcome Json × Client × W
  unfolding after_select
  after_write id base timeout (false, w) = (raised client_error, open_client id, w)
  after_write id base timeout (true, w) =
      if allowed base timeout == 0
      then killed id (budget_expired base timeout) w
      else after_select id (budget_expired base timeout) (pipes.select (allowed base timeout) w)

  unfoldable pub request : ℕ → String → Json → Option ℕ → Client → W → Outcome Json × Client × W
  unfolding after_write
  request base method params timeout c w =
      if c.closed
      then (raised client_error, c, w)
      else after_write c.next_id base timeout
          (pipes.write (request_fields c.next_id method params) w)

  -- `result["content"][0]["text"]`, and its JSON.
  abbrev pub text_at : Option Json → Option String
  text_at (some (array (cons (object item) rest))) = elim (lookup "text" item) [
    | none ↦ none
    | some v ↦ elim v [ string s ↦ some s | _ ↦ none ]
  ]
  text_at _ = none

  abbrev pub content_of : Json → Option Json
  content_of (object f) = lookup "content" f
  content_of _ = none

  abbrev pub value_of : Option Json → Outcome Json
  value_of none = raised protocol_error
  value_of (some v) = returned v

  abbrev pub tool_value : Outcome Json → Outcome Json
  tool_value (raised failure) = raised failure
  tool_value (returned v) = elim (text_at (content_of v)) [
    | none ↦ raised protocol_error
    | some text ↦ value_of (pipes.loads text)
  ]

  abbrev pub as_tool : Outcome Json × Client × W → Outcome Json × Client × W
  as_tool (o, c, w) = (tool_value o, c, w)

  unfoldable pub forge : ℕ → Fields → Option ℕ → Client → W → Outcome Json × Client × W
  unfolding request
  forge base arguments timeout c w = as_tool (
      request base "tools/call"
        (object (field "name" (string "sigil_forge") (field "arguments" (object arguments) end)))
        timeout c w)
