-- ===== src/Agent/Clip/Laws.antt =====
-- A clipped result: within the budget, a beginning of the text, and an exact notice.
use sigil_pi.Prelude.{
  ℕ, ◌-◌, ◌≤◌, ◌<◌, ◌≡◌, ◌⊎◌, inl, inr, refl, List, [], false, ◌++◌, arith, length, take, leb, ltb,
  leb→le, Bool-cases, length-append, length-take-le,
}
use mathlib.Core.List.{append-nil}
use sigil_pi.Agent.Decimal.{decimal, length-decimal-le}
use sigil_pi.Agent.Clip.{note_end, note_for, head_of, clip_tool_result}

length-note_for-le : (total m n : ℕ) → m ≤ n → length (note_for total m) ≤ length (note_for total n)
unfolding note_for
length-note_for-le total m n h = omega (
  arith,
  length-append (decimal m) (note_end total),
  length-append (decimal n) (note_end total),
  length-decimal-le m n h,
)

module _ (ignore : List ℕ → List ℕ) (shorter : (b : List ℕ) → length (ignore b) ≤ length b) where
  length-head_of-le :
      (raw : List ℕ) (limit : ℕ)
      → length (head_of ignore raw limit) ≤ limit - length (note_for (length raw) limit)
  unfolding head_of
  length-head_of-le raw limit =
      let keep = limit - length (note_for (length raw) limit) in
      omega (arith, shorter (take keep raw), length-take-le keep raw)

  -- Where decoding a cut drops bytes and adds none, the result of a clip never exceeds the byte
  -- budget, whatever the limit and the text.
  pub clip_tool_result_budget :
      (raw : List ℕ) (limit : ℕ) → length (clip_tool_result ignore raw limit) ≤ limit
  unfolding clip_tool_result
  clip_tool_result_budget raw limit =
      let note = note_for (length raw) limit in
      let head = head_of ignore raw limit in
      elim (Bool-cases (leb (length raw) limit)) [
        | inl small ↦ rw small (leb→le _ _ small)
        | inr big ↦ elim (Bool-cases (ltb limit (length note))) [
          | inl tiny ↦
              rw (big, tiny) (omega (arith, shorter (take limit raw), length-take-le limit raw))
          | inr room ↦
              let fits : length note ≤ limit = ground arith in
              let shown : length head ≤ limit = omega (arith, length-head_of-le raw limit) in
              rw (big, room)
                (omega (
                  arith,
                  length-append head (note_for (length raw) (length head)),
                  length-head_of-le raw limit,
                  length-note_for-le (length raw) (length head) limit shown,
                ))
        ]
      ]

  -- Where decoding a cut keeps a beginning of the text, so does the result of a clip. Where the limit
  -- holds a notice, the result ends in one that gives exactly how many bytes are shown and how many
  -- there were; else it has no notice.
  pub clip_tool_result_lem :
      (raw : List ℕ) (limit : ℕ)
      → ((n : ℕ) → (rest : List ℕ) × (ignore (take n raw) ++ rest ≡ raw))
      → limit < length raw
      → (head rest note : List ℕ) × (clip_tool_result ignore raw limit ≡ head ++ note)
        × (head ++ rest ≡ raw)
        × ((note ≡ []) × (limit < length (note_for (length raw) limit))
            ⊎ (note ≡ note_for (length raw) (length head)))
  unfolding clip_tool_result head_of
  clip_tool_result_lem raw limit prefix big =
      let note = note_for (length raw) limit in
      let over : leb (length raw) limit ≡ false = ground arith in
      elim (Bool-cases (ltb limit (length note))) [
        | inl tiny ↦ (
          ignore (take limit raw),
          (prefix limit).0,
          [],
          rw (over, tiny, append-nil),
          (prefix limit).1,
          inl (refl, ground arith),
        )
        | inr room ↦ (
          head_of ignore raw limit,
          (prefix (limit - length note)).0,
          note_for (length raw) (length (head_of ignore raw limit)),
          rw (over, room),
          (prefix (limit - length note)).1,
          inr refl,
        )
      ]
