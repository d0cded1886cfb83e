-- ===== src/Agent/Clip.antt =====
-- `clip_tool_result` of agent.py on the UTF-8 bytes of the text. `ignore` is
-- `decode(errors="ignore")` on a cut, as bytes again. A limit below 0 acts as 0.
pub mod Laws
mod Tests
use sigil_pi.Prelude.{ℕ, ◌-◌, List, [], ◌∷◌, ◌++◌, length, take, leb, ltb, if◌then◌else◌}
use sigil_pi.Agent.Bytes.{bytes}
use sigil_pi.Agent.Decimal.{decimal}

-- The notice; the ellipsis is three bytes.
abbrev pub note_end : ℕ → List ℕ
note_end total = bytes " of " ++ (decimal total ++ bytes " bytes shown]")

unfoldable pub note_for : ℕ → ℕ → List ℕ
note_for total shown =
    (b'\n' ∷ 0xe2 ∷ 0x80 ∷ 0xa6 ∷ []) ++ (bytes "[clipped: " ++ (decimal shown ++ note_end total))

module _ (ignore : List ℕ → List ℕ) where
  -- What of the text is shown above the notice.
  unfoldable pub head_of : List ℕ → ℕ → List ℕ
  head_of raw limit = ignore (take (limit - length (note_for (length raw) limit)) raw)

  unfoldable pub clip_tool_result : List ℕ → ℕ → List ℕ
  clip_tool_result raw limit =
      if leb (length raw) limit
      then raw
      else if ltb limit (length (note_for (length raw) limit))
      then ignore (take limit raw)
      else head_of raw limit ++ note_for (length raw) (length (head_of raw limit))
