-- ===== src/Agent/Tools/Placeholders.antt =====
-- What the values of a tool's grants stand for: the placeholders of `_dispatch` in agent.py.
use Prim.Native.Char.{code}
use Prim.Native.String.{◌++◌ as concat}
use sigil_pi.Prelude.{
  after_prefix, ℕ, zero, suc, ◌-◌, String, Bool, ◌&&◌, ◌||◌, Option, none, some, List, [], ◌∷◌,
  ◌++◌, leb, ◌==◌, str_eq, if◌then◌else◌,
}
use sigil_pi.Prelude.Dict.{Dict, get}
use sigil_pi.Agent.Forge.{Grants}

pub record Config : Type 0 where
  pub net_allowlist : List String
  pub secrets : Dict String
  pub max_tool_result_bytes : ℕ

-- `str.replace`: `skip` characters of an occurrence are still to be dropped.
abbrev pub replace_from : String → String → ℕ → ℕ → String → String
replace_from old new len skip String.[] = ""
replace_from old new len zero (String.◌∷◌ c s) = elim (after_prefix old (String.◌∷◌ c s)) [
  | none ↦ String.◌∷◌ c (replace_from old new len zero s)
  | some after ↦ concat new (replace_from old new len (len - 1) s)
]
replace_from old new len (suc skip) (String.◌∷◌ c s) = replace_from old new len skip s

-- `[a-z0-9_]`
abbrev pub is_secret_char : ℕ → Bool
is_secret_char c = (leb b'a' c && leb c b'z') || (leb b'0' c && leb c b'9') || c == b'_'

-- The name before the closing brace, which ends the text or stands before a last newline.
abbrev pub secret_until : String → Option String
secret_until String.[] = none
secret_until (String.◌∷◌ c s) =
    let rest = secret_until s in
    if code c == b'}'
    then if str_eq s "" || str_eq s "\n" then some "" else none
    else if is_secret_char (code c)
    then elim rest [ none ↦ none | some n ↦ some (String.◌∷◌ c n) ]
    else none

-- `SECRET_TOKEN.match(v).group(1)`, from what follows "{SECRET:"; `none` where nothing matches.
abbrev pub secret_name : String → Option String
secret_name rest = elim (secret_until rest) [
  | none ↦ none
  | some n ↦ if str_eq n "" then none else some n
]

abbrev pub secret_value : Dict String → String → List String
secret_value secrets name = elim (get name secrets) [
  | none ↦ []
  | some v ↦ if str_eq v "" then [] else concat name (concat "=" v) ∷ []
]

-- One value of a grant; `none` for a malformed secret, whose `match` is None.
unfoldable pub resolved : Config → String → String → Option (List String)
resolved config sandbox v =
    if str_eq v "{NET_ALLOWLIST}"
    then some config.net_allowlist
    else elim (after_prefix "{SECRET:" v) [
      | some rest ↦ elim (secret_name rest) [
        | none ↦ none
        | some n ↦ some (secret_value config.secrets n)
      ]
      | none ↦ some (replace_from "{SANDBOX}" sandbox 9 0 v ∷ [])
    ]

unfoldable pub resolved_all : Config → String → List String → Option (List String)
unfolding resolved
resolved_all config sandbox [] = some []
resolved_all config sandbox (v ∷ vs) = elim (resolved config sandbox v) [
  | none ↦ none
  | some r ↦ elim (resolved_all config sandbox vs) [ none ↦ none | some rest ↦ some (r ++ rest) ]
]

unfoldable pub granted : Config → String → Grants → Option Grants
unfolding resolved_all
granted config sandbox [] = some []
granted config sandbox ((kind, values) ∷ grants) = elim (resolved_all config sandbox values) [
  | none ↦ none
  | some vs ↦ elim (granted config sandbox grants) [
    | none ↦ none
    | some rest ↦ some ((kind, vs) ∷ rest)
  ]
]
