-- ===== src/Agent/Turn/Tests.antt =====
-- A turn of two steps: the model calls the one tool that it may use, then answers. Its world is the
-- number of forges so far.
use sigil_pi.Prelude.{
  ℕ, zero, suc, ◌+◌, ◌≡◌, refl, String, true, false, Option, none, some, List, [], ◌∷◌,
}
use sigil_pi.Agent.Bytes.{bytes}
use sigil_pi.Agent.Frames.{Frame}
use sigil_pi.Agent.Transcript.{Message}
use sigil_pi.Agent.Turn.{
  answer, reply, Host, authorized, turn_locked, steps, after_abort, after_deadline, after_ask,
  run_blocks, after_blocks, end_step, answered, after_progress, after_dispatch, join_lines,
  compacted,
}
use sigil_pi.Agent.Turn.Safety.{Respects, SavedWell, turn_locked_safe}

abbrev blocks_at : ℕ → List Frame
blocks_at zero =
    Frame.text (bytes "let me look")
    ∷ Frame.tool_use "c1" "fetch" none
    ∷ Frame.tool_use "c2" "shell" none
    ∷ []
blocks_at (suc n) = Frame.text (bytes "done") ∷ Frame.usage 3 4 ∷ []

-- Each forge is counted, and the tools that were dispatched are listed.
abbrev World : Type 0
World = ℕ × List String

abbrev host : Host World
host = record {
  encode = bytes;
  ask = λ remembered messages w. (answer (blocks_at w.0), (w.0 + 1, w.1));
  dispatch = λ name input w. (answer (bytes "ok", false), (w.0, name ∷ w.1));
  aborted = λ w. (false, w);
  past_deadline = λ w. (false, w);
  progress = λ step tools w. (false, w);
  recall = λ message w. (answer [], w);
  remember = λ message kind w. (answer tt, w);
}

abbrev allowed : Option (List String)
allowed = some ("fetch" ∷ [])

abbrev short : List Message → List ℕ
short ms = []

-- Every tool that was dispatched was allowed.
abbrev AllAllowed : List String → Type 0
AllAllowed [] = Unit {0}
AllAllowed (t ∷ ts) = (authorized allowed t ≡ true) × AllAllowed ts

keeps : Respects host allowed short 100 (λ w. AllAllowed w.1)
keeps = record {
  ask = λ r ms w p b i. i;
  dispatch = λ name input w granted i. (granted, i);
  aborted = λ w i. i;
  past_deadline = λ w i. i;
  progress = λ n tools w i. i;
  recall = λ m w i. i;
  remember = λ m kind w i. i;
}

turn_locked_safe_example :
    let r = turn_locked host allowed short 100 ("fetch" ∷ "shell" ∷ []) 8 [] (bytes "hi") (0, []) in
    SavedWell host allowed short 100 (λ w. AllAllowed w.1) keeps r.saved × AllAllowed r.world.1
turn_locked_safe_example =
    turn_locked_safe host allowed short 100 (λ w. AllAllowed w.1) keeps ("fetch" ∷ "shell" ∷ []) 8
      [] (bytes "hi") (0, []) refl tt

-- One of the two calls was dispatched, and the turn ended with its answer.
two_steps :
    let r = turn_locked host allowed short 100 ("fetch" ∷ "shell" ∷ []) 8 [] (bytes "hi") (0, []) in
    (r.exit ≡ reply (bytes "done")) × (r.world ≡ (2, "fetch" ∷ [])) × (r.input_tokens ≡ 3)
unfolding turn_locked steps after_abort after_deadline after_ask run_blocks after_blocks end_step
    answered after_progress after_dispatch join_lines compacted
two_steps = (refl, refl, refl)
