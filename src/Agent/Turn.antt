-- ===== src/Agent/Turn.antt =====
-- `PiAgent._turn_locked` of agent.py: the tool-using loop of one turn. What the loop calls (the two
-- forges of a step, the dispatch of a tool, the clock, the caller's callbacks, memory) acts on a
-- world `W` that the model does not look into.
pub mod Safety
mod Tests
use sigil_pi.Prelude.{
  ℕ, zero, suc, ◌+◌, String, Bool, true, false, not, ◌||◌, ◌&&◌, Option, none, some, List, [], ◌∷◌,
  ◌++◌, any, all, str_eq, if◌then◌else◌,
}
use sigil_pi.Agent.Json.{Json}
use sigil_pi.Agent.Bytes.{bytes}
use sigil_pi.Agent.Frames.{Frame}
use sigil_pi.Agent.Transcript.{Block, text, tool_use, tool_result, string, blocks, Message, compact}

-- How a turn ends: a reply, `TurnAbandoned`, or another exception.
pub data Exit : Type 0 where
  reply : List ℕ → Exit
  abandoned deadline_exceeded no_final_answer unknown_tools : Exit
  raised : String → Exit

-- What a call may answer: a value, or the name of the exception that it raises.
pub data Answer (A : Type 0) : Type 0 where
  answer : A → Answer A
  raise : String → Answer A

pub record Host (W : Type 0) : Type 0 where
  -- the UTF-8 bytes of an identifier
  pub encode : String → List ℕ
  -- `self._parse(self._llm(payload))`, by the recalled context and the messages of the payload
  pub ask : List ℕ → List Message → W → Answer (List Frame) × W
  -- `self._dispatch(...)`: the content and whether it is an error
  pub dispatch : String → Option Json → W → Answer (List ℕ × Bool) × W
  -- `abort()` and the test of the turn's deadline
  pub aborted : W → Bool × W
  pub past_deadline : W → Bool × W
  -- `progress({"step": …, "tools": …})`, and whether it raised
  pub progress : ℕ → List String → W → Bool × W
  -- `self.memory.recall` and `self.memory.record`; without a memory, "" and nothing
  pub recall : List ℕ → W → Answer (List ℕ) × W
  pub remember : List ℕ → String → W → Answer (Unit {0}) × W

-- One turn's local variables.
pub record State (W : Type 0) : Type 0 where
  pub messages : List Message
  pub input_tokens : ℕ
  pub output_tokens : ℕ
  pub step_no : ℕ
  pub world : W

-- How the turn ended, the messages that its `finally` saves, and its usage.
pub record TurnResult (W : Type 0) : Type 0 where
  pub exit : Exit
  pub saved : Option (List Message)
  pub input_tokens : ℕ
  pub output_tokens : ℕ
  pub world : W

-- The locals before the first step.
abbrev pub start_turn : {W : Type 0} → List Message → List ℕ → W → State W
start_turn stored user_message w = record {
  messages = stored ++ record { role = "user"; content = string user_message } ∷ [];
  input_tokens = 0;
  output_tokens = 0;
  step_no = 0;
  world = w;
}

abbrev pub refused_turn : {W : Type 0} → W → TurnResult W
refused_turn w = record {
  exit = unknown_tools;
  saved = none;
  input_tokens = 0;
  output_tokens = 0;
  world = w;
}

-- An exception before the `try`, whose `finally` does not run.
abbrev pub failed_turn : {W : Type 0} → String → W → TurnResult W
failed_turn e w = record {
  exit = raised e;
  saved = none;
  input_tokens = 0;
  output_tokens = 0;
  world = w;
}

-- The variables of one step.
pub record Step : Type 0 where
  pub assistant_content : List Block
  pub tool_results : List Block
  pub texts : List (List ℕ)

abbrev pub empty_step : Step
empty_step = record { assistant_content = []; tool_results = []; texts = [] }

-- `allowed_tools is None or name in allowed_tools`
abbrev pub authorized : Option (List String) → String → Bool
authorized none name = true
authorized (some tools) name = any (str_eq name) tools

-- `not (set(allowed_tools) - set(self.manifest))`
abbrev pub known_tools : List String → Option (List String) → Bool
known_tools manifest none = true
known_tools manifest (some tools) = all (λ t. any (str_eq t) manifest) tools

-- `"\n".join(texts)`
unfoldable pub join_lines : List (List ℕ) → List ℕ
join_lines [] = []
join_lines (t ∷ []) = t
join_lines (t ∷ u ∷ us) = t ++ (b'\n' ∷ join_lines (u ∷ us))

abbrev pub tool_names : List Block → List String
tool_names [] = []
tool_names (tool_use id name input ∷ bs) = name ∷ tool_names bs
tool_names (_ ∷ bs) = tool_names bs

abbrev pub add_text : List ℕ → Step → Step
add_text p st = record st {
  assistant_content = st.assistant_content ++ text p ∷ [];
  texts = st.texts ++ p ∷ [];
}

abbrev pub add_call : String → String → Option Json → List ℕ → Bool → Step → Step
add_call id name input content is_error st = record st {
  assistant_content = st.assistant_content ++ tool_use id name input ∷ [];
  tool_results = st.tool_results ++ tool_result id content is_error ∷ [];
}

module _ {W : Type 0} (host : Host W) (allowed : Option (List String)) where
  abbrev Blocks : Type 0
  Blocks = Step → State W → Answer Step × State W

  abbrev pub refused : String → List ℕ
  refused name = bytes "tool not authorized: " ++ host.encode name

  unfoldable pub after_dispatch :
      String
      → String
      → Option Json
      → Blocks
      → Step
      → State W
      → Answer (List ℕ × Bool) × W
      → Answer Step × State W
  after_dispatch id name input next st s (answer (content, is_error), w) =
      next (add_call id name input content is_error st) (record s { world = w })
  after_dispatch id name input next st s (raise e, w) = (raise e, record s { world = w })

  -- The loop `for block in blocks`.
  unfoldable pub run_blocks : List Frame → Blocks
  unfolding after_dispatch
  run_blocks [] st s = (answer st, s)
  run_blocks (Frame.text p ∷ fs) st s = run_blocks fs (add_text p st) s
  run_blocks (Frame.usage i o ∷ fs) st s =
      run_blocks fs st
        (record s { input_tokens = s.input_tokens + i; output_tokens = s.output_tokens + o })
  run_blocks (Frame.tool_use id name input ∷ fs) st s =
      let denied = run_blocks fs (add_call id name input (refused name) true st) s in
      let granted =
        after_dispatch id name input (run_blocks fs) st s (host.dispatch name input s.world) in
      if authorized allowed name then granted else denied
  run_blocks (Frame.other p ∷ fs) st s = run_blocks fs st s

  abbrev pub say : String → List Block → State W → State W
  say role bs s = record s {
    messages = s.messages ++ record { role = role; content = blocks bs } ∷ [];
  }

  -- An assistant message with no content is dropped.
  abbrev pub say_assistant : List Block → State W → State W
  say_assistant [] s = s
  say_assistant (b ∷ bs) s = say "assistant" (b ∷ bs) s

  abbrev pub after_note : List ℕ → State W → Answer (Unit {0}) × W → Exit × State W
  after_note m s (answer x, w) = (reply m, record s { world = w })
  after_note m s (raise e, w) = (raised e, record s { world = w })

  abbrev pub after_user : List ℕ → State W → Answer (Unit {0}) × W → Exit × State W
  after_user m s (answer x, w) = after_note m s (host.remember m "agent_action" w)
  after_user m s (raise e, w) = (raised e, record s { world = w })

  -- The final answer: the user's message and the reply, if there is one, go to memory.
  unfoldable pub answered : List ℕ → List ℕ → State W → Exit × State W
  answered user_message [] s = after_note [] s (host.remember user_message "user_message" s.world)
  answered user_message (c ∷ cs) s =
      after_user (c ∷ cs) s (host.remember user_message "user_message" s.world)

  unfoldable pub after_progress : (State W → Exit × State W) → State W → Bool × W → Exit × State W
  after_progress next s (true, w) = (abandoned, record s { world = w })
  after_progress next s (false, w) = next (record s { world = w })

  -- The end of a step: `results` are its tool results.
  unfoldable pub end_step :
      List ℕ → (State W → Exit × State W) → Step → List Block → State W → Exit × State W
  unfolding answered after_progress
  end_step user_message next st [] s = answered user_message (join_lines st.texts) s
  end_step user_message next st (b ∷ bs) s =
      let told = record (say "user" (b ∷ bs) s) { step_no = s.step_no + 1 } in
      after_progress next told
        (host.progress told.step_no (tool_names st.assistant_content) s.world)

  unfoldable pub after_blocks :
      List ℕ → (State W → Exit × State W) → Answer Step × State W → Exit × State W
  unfolding end_step
  after_blocks user_message next (answer st, s) =
      end_step user_message next st st.tool_results (say_assistant st.assistant_content s)
  after_blocks user_message next (raise e, s) = (raised e, s)

  unfoldable pub after_ask :
      List ℕ → (State W → Exit × State W) → State W → Answer (List Frame) × W → Exit × State W
  unfolding after_blocks run_blocks
  after_ask user_message next s (answer fs, w) =
      after_blocks user_message next (run_blocks fs empty_step (record s { world = w }))
  after_ask user_message next s (raise e, w) = (raised e, record s { world = w })

  module _ (dumps : List Message → List ℕ) (max_history_bytes : ℕ) where
    unfoldable pub compacted : State W → State W
    compacted s = record s { messages = compact dumps s.messages max_history_bytes }

    unfoldable pub after_deadline :
        List ℕ → List ℕ → (State W → Exit × State W) → State W → Bool × W → Exit × State W
    unfolding after_ask compacted
    after_deadline user_message remembered next s (true, w) =
        (deadline_exceeded, record s { world = w })
    after_deadline user_message remembered next s (false, w) =
        let s' = compacted (record s { world = w }) in
        after_ask user_message next s' (host.ask remembered s'.messages w)

    unfoldable pub after_abort :
        List ℕ → List ℕ → (State W → Exit × State W) → State W → Bool × W → Exit × State W
    unfolding after_deadline
    after_abort user_message remembered next s (true, w) = (abandoned, record s { world = w })
    after_abort user_message remembered next s (false, w) =
        after_deadline user_message remembered next (record s { world = w }) (host.past_deadline w)

    -- `for _ in range(self.max_steps)`
    unfoldable pub steps : List ℕ → List ℕ → ℕ → State W → Exit × State W
    unfolding after_abort
    steps user_message remembered zero s = (no_final_answer, s)
    steps user_message remembered (suc n) s =
        after_abort user_message remembered (steps user_message remembered n) s
          (host.aborted s.world)

    -- The `finally`: the messages that are saved are compacted.
    abbrev pub finish_turn : Exit × State W → TurnResult W
    finish_turn (exit, s) = record {
      exit = exit;
      saved = some (compact dumps s.messages max_history_bytes);
      input_tokens = s.input_tokens;
      output_tokens = s.output_tokens;
      world = s.world;
    }

    abbrev pub after_recall : ℕ → List Message → List ℕ → Answer (List ℕ) × W → TurnResult W
    after_recall max_steps stored user_message (answer remembered, w) =
        finish_turn (steps user_message remembered max_steps (start_turn stored user_message w))
    after_recall max_steps stored user_message (raise e, w) = failed_turn e w

    -- The turn on the messages that the store holds. A tool set with an unknown name is refused
    -- before anything is loaded, so nothing is saved.
    unfoldable pub turn_locked : List String → ℕ → List Message → List ℕ → W → TurnResult W
    turn_locked manifest max_steps stored user_message w =
        if known_tools manifest allowed
        then after_recall max_steps stored user_message (host.recall user_message w)
        else refused_turn w
