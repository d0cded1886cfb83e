-- ===== src/Agent/Clip/Tests.antt =====
-- Clipped tool results, with a decoder that takes every byte.
use sigil_pi.Prelude.{
  ℕ, ◌≤◌, ◌<◌, ◌≡◌, ◌⊎◌, refl, List, [], ◌++◌, arith, length, drop, take-append-drop,
}
use sigil_pi.Agent.Bytes.{bytes}
use sigil_pi.Agent.Clip.{note_for, clip_tool_result}
use sigil_pi.Agent.Clip.Laws.{clip_tool_result_budget, clip_tool_result_lem}

abbrev ascii : List ℕ → List ℕ
ascii b = b

abbrev body : List ℕ
body = bytes "0123456789012345678901234567890123456789012345678901234567890123456789"

clip-short : clip_tool_result ascii body 70 ≡ body
unfolding clip_tool_result
clip-short = refl

clip_tool_result_budget_run : length (clip_tool_result ascii body 50) ≤ 50
clip_tool_result_budget_run = clip_tool_result_budget ascii (λ b. omega arith) body 50

clip_tool_result_lem_example :
    (head rest note : List ℕ) × (clip_tool_result ascii body 50 ≡ head ++ note)
    × (head ++ rest ≡ body)
    × ((note ≡ []) × (50 < length (note_for (length body) 50))
        ⊎ (note ≡ note_for (length body) (length head)))
clip_tool_result_lem_example =
    clip_tool_result_lem ascii (λ b. omega arith) body 50
      (λ n. (drop n body, take-append-drop n body)) (omega arith)
