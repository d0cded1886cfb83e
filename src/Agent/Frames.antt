-- ===== src/Agent/Frames.antt =====
-- `decode_frames` of agent.py: the host's half of the bridge to `parse_reply`. A stream is a run of
-- frames, each a tag byte, eight characters with the payload's length, and the payload.
pub mod RoundTrip
mod Tests
use sigil_pi.Prelude.{
  ℕ, zero, suc, ◌+◌, String, Bool, true, false, List, [], ◌∷◌, ◌++◌, Option, none, some, take, drop,
  length, ◌==◌, if◌then◌else◌,
}
use sigil_pi.Agent.Json.{ℤ, pos, negsuc, Json}
use sigil_pi.Agent.PyInt.{int, digits_of}

-- The exceptions that leave `decode_frames`.
pub data Exception : Type 0 where
  value_error assertion_error unicode_error : Exception

pub data Decoded {ℓ} (A : Type ℓ) : Type ℓ where
  ok : A → Decoded A
  err : Exception → Decoded A

-- An exception ends the rest of a block.
infixl 5 ◌>>=◌
abbrev pub ◌>>=◌ {ℓ κ} :
    {A : Type ℓ} {B : Type κ} (first : Decoded A) (rest : A → Decoded B) → Decoded B
first >>= rest = elim first [ ok value ↦ rest value | err e ↦ err e ]

pub data Frame : Type 0 where
  text : List ℕ → Frame
  usage : ℕ → ℕ → Frame
  tool_use : String → String → Option Json → Frame
  other : List ℕ → Frame

-- Python's own decoders. Text is kept as its UTF-8 bytes, an identifier is a `String`.
pub record Decoders : Type 0 where
  -- whether `payload.decode()` returns
  pub is_utf8 : List ℕ → Bool
  -- the string that the bytes of an identifier decode to
  pub identifier : List ℕ → String
  -- `json.loads`: a value, or `none` for a `JSONDecodeError`, or another exception
  pub loads : List ℕ → Decoded (Option Json)

-- `s.split(sep, 1)` into two parts, or `none` where there is no separator.
unfoldable pub split_once : ℕ → List ℕ → Option (List ℕ × List ℕ)
split_once sep [] = none
split_once sep (c ∷ cs) =
    let rest = split_once sep cs in
    if c == sep then some ([], cs) else elim rest [ none ↦ none | some (a, b) ↦ some (c ∷ a, b) ]

-- A nonnegative `int`, or the `ValueError` of the conversion or of the test `counts[0] < 0`.
abbrev pub count : List ℕ → Option ℕ
count s = elim (int s) [ none ↦ none | some (pos n) ↦ some n | some (negsuc n) ↦ none ]

unfoldable pub usage_counts : List ℕ → Option (ℕ × ℕ)
unfolding split_once
usage_counts payload = elim (split_once b'|' payload) [
  | none ↦ none
  | some (a, b) ↦ elim (count a) [
    | none ↦ none
    | some i ↦ elim (count b) [ none ↦ none | some o ↦ some (i, o) ]
  ]
]

module _ (d : Decoders) where
  unfoldable pub decoded : List ℕ → Decoded (List ℕ)
  decoded payload = if d.is_utf8 payload then ok payload else err unicode_error

  unfoldable pub name : List ℕ → Decoded String
  name payload = if d.is_utf8 payload then ok (d.identifier payload) else err unicode_error

  -- `payload.split(b"\x1f", 2)` unpacked into three, then the input's JSON, then the two names.
  unfoldable pub tool_use_frame : List ℕ → Decoded Frame
  unfolding split_once name
  tool_use_frame payload = elim (split_once 0x1f payload) [
    | none ↦ err value_error
    | some (tu_id, rest) ↦ elim (split_once 0x1f rest) [
      | none ↦ err value_error
      | some (tool, raw_input) ↦ do
        input ← d.loads raw_input
        i ← name tu_id
        n ← name tool
        ok (tool_use i n input)
    ]
  ]

  unfoldable pub other_frame : List ℕ → Decoded Frame
  unfolding decoded
  other_frame payload = do p ← decoded payload; ok (other p)

  unfoldable pub frame_of : ℕ → List ℕ → Decoded Frame
  unfolding decoded usage_counts tool_use_frame other_frame
  frame_of tag payload =
      if tag == b't'
      then (do p ← decoded payload; ok (text p))
      else if tag == b'g'
      then elim (usage_counts payload) [ none ↦ other_frame payload | some (i, o) ↦ ok (usage i o) ]
      else if tag == b'u'
      then tool_use_frame payload
      else other_frame payload

  -- The payload that the length field announces: `data[i+9 : i+9+n]` with `len(payload) == n`. No
  -- payload has a negative length, so a negative field fails the assertion too.
  unfoldable pub payload_of : List ℕ → Decoded (ℕ × List ℕ)
  payload_of rest = elim (int (take 8 rest)) [
    | none ↦ err value_error
    | some (negsuc n) ↦ err assertion_error
    | some (pos n) ↦
        if length (take n (drop 8 rest)) == n
        then ok (n, take n (drop 8 rest))
        else err assertion_error
  ]

  -- The loop, on fuel: each round takes at least the tag byte off.
  unfoldable pub frames : ℕ → List ℕ → Decoded (List Frame)
  unfolding payload_of frame_of
  frames fuel [] = ok []
  frames zero (tag ∷ rest) = err value_error
  frames (suc fuel) (tag ∷ rest) = do
    p ← payload_of rest
    block ← frame_of tag p.1
    blocks ← frames fuel (drop (8 + p.0) rest)
    ok (block ∷ blocks)

  unfoldable pub decode_frames : List ℕ → Decoded (List Frame)
  unfolding frames
  decode_frames input = frames (length input) input
