-- ===== src/Agent/Tools/Tests.antt =====
-- A tool that fetches with a network grant and a secret, and a shape that reads what it fetched.
use sigil_pi.Prelude.{ℕ, ◌+◌, ◌≡◌, refl, arith, true, false, Option, none, some, List, [], ◌∷◌}
use sigil_pi.Prelude.Dict.{Dict, get}
use sigil_pi.Agent.Clip.{clip_tool_result}
use sigil_pi.Agent.Json.{Json, string}
use sigil_pi.Agent.Bytes.{bytes}
use sigil_pi.Agent.Forge.{finished, State, forge}
use sigil_pi.Agent.Tools.Wire.{framed, unframed, unframed-framed}
use sigil_pi.Agent.Tools.Placeholders.{Config, granted}
use sigil_pi.Agent.Tools.{Tool, Host, content, dispatch, tool_specs}
use sigil_pi.Agent.Tools.Staged.{IsStaged, dispatch-IsStaged}

abbrev text_of : Json → List ℕ
text_of (string s) = bytes s
text_of _ = []

-- Each guest answers with its input.
abbrev host : Host ℕ
host = record {
  forging = record {
    monotonic = λ w. (w, w + 1);
    lock = λ w. w;
    lock_within = λ t w. (true, w);
    run = λ r t w. (finished r.input, w);
    first_200 = λ s. s;
  };
  str_of = text_of;
  join_path = λ sandbox p. p;
  read_source = λ s. bytes s;
  composed = λ s. bytes s;
  ignore = λ s. s;
}

abbrev config : Config
config = record {
  net_allowlist = "example.org" ∷ [];
  secrets = ("key", "k1") ∷ [];
  max_tool_result_bytes = 1000;
}

abbrev fetch : Tool
fetch = record {
  args = "url" ∷ [];
  path_args = [];
  bound_args = bytes "base" ∷ [];
  len8 = false;
  source = "fetch.sg";
  shape = some "shape.sg";
  grants =
      ("net", "{NET_ALLOWLIST}" ∷ [])
      ∷ ("secret", "{SECRET:key}" ∷ "{SECRET:unset}" ∷ [])
      ∷ ("fs", "{SANDBOX}/x" ∷ [])
      ∷ [];
}

abbrev manifest : Dict Tool
manifest = ("fetch", fetch) ∷ []

abbrev start : State ℕ
start = record { queue_wait = 0; held = false; calls = []; audit = []; world = 0 }

abbrev url : Option (Dict Json)
url = some (("url", string "u") ∷ [])

fetch_grants :
    granted config "/s" fetch.grants
    ≡ some (("net", "example.org" ∷ []) ∷ ("secret", "key=k1" ∷ []) ∷ ("fs", "/s/x" ∷ []) ∷ [])
unfolding granted get
fetch_grants = refl

fetch_answer :
    (dispatch host config manifest none "s" "fetch" "/s" url [] start).0
    ≡ content (bytes "base|u") false
unfolding dispatch granted get forge clip_tool_result
fetch_answer = refl

finds_fetch : get "fetch" manifest ≡ some fetch
unfolding get
finds_fetch = refl

dispatch-IsStaged_example :
    IsStaged host config "s" fetch "/s" url start
      (dispatch host config manifest none "s" "fetch" "/s" url [] start).2
dispatch-IsStaged_example =
    dispatch-IsStaged host config "s" none "fetch" fetch "/s" manifest url [] start finds_fetch
      (record { complete = refl; free = refl })

-- Two arguments, with a pipe and a line's end.
unframed-framed_example :
    unframed 2 (framed (bytes "a|b" ∷ (10 ∷ []) ∷ [])) ≡ some (bytes "a|b" ∷ (10 ∷ []) ∷ [])
unframed-framed_example = unframed-framed (bytes "a|b" ∷ (10 ∷ []) ∷ []) (omega arith)

shown_tools : tool_specs {S = ℕ} (some ("b" ∷ [])) (("a", 1) ∷ ("b", 2) ∷ []) ≡ 2 ∷ []
unfolding tool_specs
shown_tools = refl
