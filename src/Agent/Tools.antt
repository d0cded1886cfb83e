-- ===== src/Agent/Tools.antt =====
-- `PiAgent._dispatch` of agent.py: from a tool's name and input to its forges. Texts are UTF-8 bytes,
-- names and grants are texts. Guest sources are what the files hold, composed where they are.
pub mod Wire
pub mod Placeholders
pub mod Arguments
pub mod Staged
mod Tests
use Prim.Native.Char.{code}
use Prim.Native.String.{◌++◌ as concat}
use sigil_pi.Prelude.{
  after_prefix, ℕ, zero, suc, ◌+◌, ◌-◌, ◌^◌, String, Bool, true, false, not, ◌&&◌, ◌||◌, Option,
  none, some, List, [], ◌∷◌, ◌++◌, any, map, length, ltb, leb, ◌==◌, str_eq, if◌then◌else◌,
}
use sigil_pi.Prelude.Dict.{Dict, get, put}
use sigil_pi.Agent.Json.{Json, Fields, end, field, object}
use sigil_pi.Agent.Bytes.{bytes}
use sigil_pi.Agent.Decimal.{decimal}
use sigil_pi.Agent.PyInt.{digits_of}
use sigil_pi.Agent.Clip.{clip_tool_result}
use sigil_pi.Agent.Forge.{Grants, Request, Forged, output, failure, timeout, raised, State, forge}
use sigil_pi.Agent.Forge as Forge
use sigil_pi.Agent.Tools.Wire.{wire}
use sigil_pi.Agent.Tools.Placeholders.{Config, granted}

-- An entry of the tool manifest.
pub record Tool : Type 0 where
  pub args : List String
  pub path_args : List String
  pub bound_args : List (List ℕ)
  pub len8 : Bool
  pub source : String
  pub shape : Option String
  pub grants : Grants

-- What the tool's caller gets: the content and whether it is an error, or an exception.
pub data Dispatched : Type 0 where
  content : List ℕ → Bool → Dispatched
  deadline_exceeded runtime_exception malformed_grant : Dispatched

pub record Host (W : Type 0) : Type 0 where
  pub forging : Forge.Host W
  -- `str` of a value, and `str(sandbox / path)`
  pub str_of : Json → List ℕ
  pub join_path : String → List ℕ → List ℕ
  -- the guest's source file, and the same composed where it asks for `sigil::json`
  pub read_source : String → List ℕ
  pub composed : String → List ℕ
  -- `decode(errors="ignore")`
  pub ignore : List ℕ → List ℕ

-- `raw`: the text of each argument, or the name of the first that is missing.
abbrev pub raw_args : (Json → List ℕ) → List String → Dict Json → Option (Dict (List ℕ))
raw_args str_of [] input = some []
raw_args str_of (a ∷ as_) input = elim (get a input) [
  | none ↦ none
  | some v ↦ elim (raw_args str_of as_ input) [
    | none ↦ none
    | some rest ↦ some ((a, str_of v) ∷ rest)
  ]
]

abbrev pub missing_arg : List String → Dict Json → String
missing_arg [] input = ""
missing_arg (a ∷ as_) input = elim (get a input) [ none ↦ a | some v ↦ missing_arg as_ input ]

-- A newline, a carriage return or a NUL.
abbrev pub is_control : ℕ → Bool
is_control c = c == 10 || c == 13 || c == 0

abbrev pub is_path : List String → String × List ℕ → Bool
is_path path_args (a, v) = any (str_eq a) path_args

abbrev pub in_sandbox : (List ℕ → List ℕ) → List String → String × List ℕ → List ℕ
in_sandbox join path_args (a, v) = if any (str_eq a) path_args then join v else v

-- `grants or None`
abbrev pub or_none : Grants → Option Grants
or_none [] = none
or_none (g ∷ gs) = some (g ∷ gs)

abbrev pub fuel : ℕ
fuel = 20000000

-- The log of a turn: the stages with their grants.
abbrev pub Log : Type 0
Log = List (String × Option Grants)

abbrev pub quoted : String → List ℕ
quoted a = bytes "'" ++ (bytes a ++ bytes "'")

abbrev pub unknown_tool : String → List ℕ
unknown_tool name = bytes "unknown tool: " ++ bytes name

abbrev pub control_text : String → List ℕ
control_text a =
    bytes "invalid tool argument: control character in "
    ++ (quoted a ++ bytes " (newlines and NUL are not allowed in paths)")

-- The first path with a control character, in the order of `path_args`.
abbrev pub bad_path : List String → Dict (List ℕ) → Option String
bad_path [] raw = none
bad_path (a ∷ as_) raw = elim (get a raw) [
  | none ↦ bad_path as_ raw
  | some v ↦ if any is_control v then some a else bad_path as_ raw
]

module _ {W : Type 0} (host : Host W) (config : Config) where
  abbrev pub Result : Type 0
  Result = Dispatched × Log × State W

  abbrev pub content_of : Forged → Dispatched
  content_of (output out) =
      content (clip_tool_result host.ignore out config.max_tool_result_bytes) false
  content_of (failure err) = content err true
  content_of timeout = deadline_exceeded
  content_of raised = runtime_exception

  -- The second forge, which has no grants.
  unfoldable pub shaped :
      Option ℕ → String → String → Option String → Log → Forged × State W → Result
  shaped deadline session name (some shape) log (output out, s) =
      let request : Request = record {
        source = host.composed shape;
        input = out;
        grants = none;
        fuel = fuel;
      } in
      let (answer, s') =
        forge host.forging deadline (some session) (concat "shape:" name) request s in
      (content_of answer, log ++ (concat name ".shape", none) ∷ [], s')
  shaped deadline session name _ log (answer, s) = (content_of answer, log, s)

  unfoldable pub with_grants :
      Option ℕ → String → String → Tool → List ℕ → Option Grants → Log → State W → Result
  unfolding shaped
  with_grants deadline session name tool input none log s = (malformed_grant, log, s)
  with_grants deadline session name tool input (some grants) log s =
      let request : Request = record {
        source = host.read_source tool.source;
        input = input;
        grants = or_none grants;
        fuel = fuel;
      } in
      shaped deadline session name tool.shape (log ++ (name, or_none grants) ∷ [])
        (forge host.forging deadline (some session) (concat "tool:" name) request s)

  -- The arguments of the guest: the operator's, then the model's with their paths resolved.
  abbrev pub wire_args : Tool → String → Dict (List ℕ) → List (List ℕ)
  wire_args tool sandbox raw =
      tool.bound_args ++ map (in_sandbox (host.join_path sandbox) tool.path_args) raw

  unfoldable pub with_args :
      Option ℕ → String → String → Tool → String → Dict (List ℕ) → Log → State W → Result
  unfolding with_grants wire granted
  with_args deadline session name tool sandbox raw log s = elim (bad_path tool.path_args raw) [
    | some a ↦ (content (control_text a) true, log, s)
    | none ↦ elim (wire tool.len8 (wire_args tool sandbox raw)) [
      | none ↦ (content (bytes "invalid tool argument: '|' not allowed here") true, log, s)
      | some input ↦
          with_grants deadline session name tool input (granted config sandbox tool.grants) log s
    ]
  ]

  unfoldable pub dispatch_tool :
      Option ℕ → String → String → Tool → String → Option (Dict Json) → Log → State W → Result
  unfolding with_args
  dispatch_tool deadline session name tool sandbox none log s =
      (content (bytes "malformed tool input (not a JSON object)") true, log, s)
  dispatch_tool deadline session name tool sandbox (some input) log s =
      elim (raw_args host.str_of tool.args input) [
        | none ↦ (
          content (bytes "missing tool argument: " ++ quoted (missing_arg tool.args input)) true,
          log,
          s,
        )
        | some raw ↦ with_args deadline session name tool sandbox raw log s
      ]

  -- `input` is `none` where the model's input is not an object.
  unfoldable pub dispatch :
      Dict Tool → Option ℕ → String → String → String → Option (Dict Json) → Log → State W → Result
  unfolding dispatch_tool
  dispatch manifest deadline session name sandbox input log s = elim (get name manifest) [
    | none ↦ (content (unknown_tool name) true, log, s)
    | some tool ↦ dispatch_tool deadline session name tool sandbox input log s
  ]

-- `tool_specs`, by the names of the tools.
unfoldable pub tool_specs {ℓ} : {S : Type ℓ} → Option (List String) → Dict S → List S
tool_specs none manifest = map (λ p. p.1) manifest
tool_specs (some allowed) [] = []
tool_specs (some allowed) ((name, spec) ∷ manifest) =
    let rest = tool_specs (some allowed) manifest in
    if any (str_eq name) allowed then spec ∷ rest else rest
