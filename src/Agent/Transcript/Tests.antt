-- ===== src/Agent/Transcript/Tests.antt =====
-- Transcripts under `compact` of agent.py. A stand-in for the JSON text has one byte per message.
use sigil_pi.Prelude.{ℕ, ◌≡◌, refl, false, none, List, [], ◌∷◌, map}
use sigil_pi.Agent.Transcript.{
  text, tool_use, tool_result, string, blocks, Message, history_bytes, segment_starts, starts_from,
  first_fit, compact,
}
use sigil_pi.Agent.Transcript.Compact.{Compacted, compact_lem}
use sigil_pi.Agent.Transcript.Paired.{Paired, compact-Paired}

abbrev one_each : List Message → List ℕ
one_each ms = map (λ m. 0) ms

abbrev ask : Message
ask = record { role = "user"; content = string (0 ∷ []) }

abbrev call : Message
call = record { role = "assistant"; content = blocks (tool_use "c1" "fetch" none ∷ []) }

abbrev result : Message
result = record { role = "user"; content = blocks (tool_result "c1" [] false ∷ []) }

abbrev reply : Message
reply = record { role = "assistant"; content = blocks (text (1 ∷ []) ∷ []) }

abbrev two_turns : List Message
two_turns = ask ∷ call ∷ result ∷ reply ∷ ask ∷ call ∷ result ∷ reply ∷ []

compact-two_turns : compact one_each two_turns 6 ≡ ask ∷ call ∷ result ∷ reply ∷ []
unfolding compact history_bytes segment_starts starts_from first_fit
compact-two_turns = refl

-- The newest turn stays, however small the limit is.
compact-newest : compact one_each two_turns 1 ≡ ask ∷ call ∷ result ∷ reply ∷ []
unfolding compact history_bytes segment_starts starts_from first_fit
compact-newest = refl

compact_lem_example : Compacted one_each 6 two_turns (compact one_each two_turns 6)
compact_lem_example = compact_lem one_each 6 two_turns

compacted_pairs : Paired (compact one_each two_turns 6)
compacted_pairs =
    compact-Paired one_each 6 two_turns
      (refl, (refl, (refl, (refl, (refl, (refl, (refl, (refl, refl))))))))
