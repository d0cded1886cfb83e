-- ===== src/Agent/Transcript.antt =====
-- The message list of a session, and `history_bytes`, `segment_starts` and `compact` of agent.py.
-- `dumps` gives the bytes of `json.dumps(messages, ensure_ascii=False).encode()`.
pub mod Compact
pub mod Paired
mod Tests
use sigil_pi.Prelude.{
  ℕ, suc, ◌+◌, String, Bool, true, false, ◌&&◌, List, [], ◌∷◌, Option, none, some, length, drop,
  leb, str_eq, if◌then◌else◌,
}
use sigil_pi.Agent.Json.{Json}

pub data Block : Type 0 where
  text : List ℕ → Block
  tool_use : String → String → Option Json → Block
  tool_result : String → List ℕ → Bool → Block

pub data Content : Type 0 where
  string : List ℕ → Content
  blocks : List Block → Content

pub record Message : Type 0 where
  pub role : String
  pub content : Content

abbrev pub is_string : Content → Bool
is_string (string s) = true
is_string (blocks bs) = false

-- The test of `segment_starts`: a real user turn.
abbrev pub starts_segment : Message → Bool
starts_segment m = str_eq m.role "user" && is_string m.content

-- The list comprehension over `enumerate(messages)`, from index `i` on.
unfoldable pub starts_from : ℕ → List Message → List ℕ
starts_from i [] = []
starts_from i (m ∷ ms) =
    let rest = starts_from (suc i) ms in if starts_segment m then i ∷ rest else rest

unfoldable pub segment_starts : List Message → List ℕ
unfolding starts_from
segment_starts ms = starts_from 0 ms

module _ (dumps : List Message → List ℕ) where
  unfoldable pub history_bytes : List Message → ℕ
  history_bytes ms = length (dumps ms)

  -- `for cut in starts[1:]`, and after the loop `messages[starts[-1]:]`: `last` is the start before.
  unfoldable pub first_fit : List Message → ℕ → ℕ → List ℕ → List Message
  unfolding history_bytes
  first_fit ms limit last [] = drop last ms
  first_fit ms limit last (cut ∷ cuts) =
      let rest = first_fit ms limit cut cuts in
      if leb (history_bytes (drop cut ms)) limit then drop cut ms else rest

  abbrev pub cut_at : List Message → ℕ → List ℕ → List Message
  cut_at ms limit [] = ms
  cut_at ms limit (start ∷ cuts) = first_fit ms limit start cuts

  unfoldable pub compact : List Message → ℕ → List Message
  unfolding history_bytes segment_starts first_fit
  compact [] limit = []
  compact (m ∷ ms) limit =
      if leb (history_bytes (m ∷ ms)) limit
      then m ∷ ms
      else cut_at (m ∷ ms) limit (segment_starts (m ∷ ms))
