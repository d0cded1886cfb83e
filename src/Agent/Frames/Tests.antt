-- ===== src/Agent/Frames/Tests.antt =====
-- Streams under `decode_frames`, with decoders for ASCII.
use sigil_pi.Prelude.{ℕ, ◌≡◌, refl, true, some, List, [], ◌∷◌, map, arith}
use sigil_pi.Agent.Json.{null}
use sigil_pi.Agent.Bytes.{bytes}
use sigil_pi.Agent.Frames.{ok, Decoders, decode_frames, frames}
use sigil_pi.Agent.PyInt.Laws.{value}
use sigil_pi.Agent.Frames.{Frame}
use sigil_pi.Agent.Frames.RoundTrip.{
  Sent, text, usage, bad_usage, unknown, tool_use, seen, frames_fuel,
}

abbrev ascii : Decoders
ascii = record { is_utf8 = λ b. true; identifier = λ b. "fetch"; loads = λ b. ok (some null) }

abbrev sent : List Sent
sent =
    text (bytes "hello")
    ∷ tool_use (bytes "c1") (bytes "fetch") (bytes "null") (some null)
    ∷ unknown (bytes "{}")
    ∷ usage (bytes "12") (bytes "007")
    ∷ bad_usage (bytes "12") (bytes "-7")
    ∷ []

counts_seen : map (seen ascii) (usage (bytes "12") (bytes "007") ∷ []) ≡ Frame.usage 12 7 ∷ []
unfolding value
counts_seen = refl

abbrev one_frame : List ℕ
one_frame = bytes "t00000002hi"

frames_with_fuel_left : frames ascii 20 one_frame ≡ decode_frames ascii one_frame
frames_with_fuel_left = frames_fuel ascii 20 one_frame (omega arith)
