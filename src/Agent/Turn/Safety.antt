-- ===== src/Agent/Turn/Safety.antt =====
-- What holds on every exit of a turn: the saved transcript, and each call that the turn makes.
use sigil_pi.Prelude.{
  ℕ, zero, suc, ◌+◌, ◌≤◌, ◌≡◌, ◌⊎◌, inl, inr, refl, ap, sym, subst, ◌∙◌, String, Bool, true, false,
  Option, none, some, List, [], ◌∷◌, ◌++◌, Bool-cases,
}
use mathlib.Core.List.{append-nil, append_assoc}
use sigil_pi.Agent.Json.{Json}
use sigil_pi.Agent.Frames.{Frame}
use sigil_pi.Agent.Transcript.{Block, text, tool_use, tool_result, Message, history_bytes}
use sigil_pi.Agent.Transcript.Compact.{NoStart, tail, compact_lem}
use sigil_pi.Agent.Transcript.Paired.{
  block_uses, block_results, results, Paired, compact-Paired, Paired-append,
}
use sigil_pi.Agent.Turn.{
  Exit, Answer, answer, raise, Host, State, Step, empty_step, authorized, add_text, add_call,
  refused, run_blocks, after_dispatch, say, say_assistant, answered, after_note, after_user,
  after_recall, after_progress, end_step, after_blocks, after_ask, compacted, after_deadline,
  after_abort, steps, turn_locked, known_tools, tool_names, start_turn,
}

block_uses-append : (xs ys : List Block) → block_uses (xs ++ ys) ≡ block_uses xs ++ block_uses ys
block_uses-append [] ys = refl
block_uses-append (text p ∷ xs) ys = block_uses-append xs ys
block_uses-append (tool_use id name input ∷ xs) ys = ap (λ l. id ∷ l) (block_uses-append xs ys)
block_uses-append (tool_result id content e ∷ xs) ys = block_uses-append xs ys

block_results-append :
    (xs ys : List Block) → block_results (xs ++ ys) ≡ block_results xs ++ block_results ys
block_results-append [] ys = refl
block_results-append (text p ∷ xs) ys = block_results-append xs ys
block_results-append (tool_use id name input ∷ xs) ys = block_results-append xs ys
block_results-append (tool_result id content e ∷ xs) ys =
    ap (λ l. id ∷ l) (block_results-append xs ys)

-- A step answers each tool call of the assistant's message, in order.
pub record IsAnswered (st : Step) : Type 0 where
  pub answers : block_results st.tool_results ≡ block_uses st.assistant_content
  pub only_uses : block_results st.assistant_content ≡ []
  pub only_results : block_uses st.tool_results ≡ []

add_text-IsAnswered : (p : List ℕ) (st : Step) → IsAnswered st → IsAnswered (add_text p st)
add_text-IsAnswered p st h = record {
  answers = rw (block_uses-append st.assistant_content (text p ∷ []), append-nil) h.answers;
  only_uses = rw (block_results-append st.assistant_content (text p ∷ []), append-nil) h.only_uses;
  only_results = h.only_results;
}

add_call-IsAnswered :
    (id name : String) (input : Option Json) (content : List ℕ) (is_error : Bool) (st : Step)
    → IsAnswered st
    → IsAnswered (add_call id name input content is_error st)
add_call-IsAnswered id name input content is_error st h = record {
  answers =
      block_results-append st.tool_results (tool_result id content is_error ∷ [])
      ∙ ap (λ l. l ++ id ∷ []) h.answers
      ∙ sym (block_uses-append st.assistant_content (tool_use id name input ∷ []));
  only_uses =
      rw (block_results-append st.assistant_content (tool_use id name input ∷ []), append-nil)
        h.only_uses;
  only_results =
      rw (block_uses-append st.tool_results (tool_result id content is_error ∷ []), append-nil)
        h.only_results;
}

module _ {W : Type 0} (host : Host W) (allowed : Option (List String))
    (dumps : List Message → List ℕ) (limit : ℕ) where
  -- The transcript fits the limit, or is a single turn.
  abbrev pub IsBounded : List Message → Type 0
  IsBounded ms = (history_bytes dumps ms ≤ limit) ⊎ NoStart (tail ms)

  -- The calls that a turn may make keep `I`: it may ask the model with paired, bounded messages
  -- only, and dispatch authorized tools only.
  pub record Respects (I : W → Type 0) : Type 0 where
    pub ask :
        (r : List ℕ) (ms : List Message) (w : W)
        → Paired ms
        → IsBounded ms
        → I w
        → I (host.ask r ms w).1
    pub dispatch :
        (name : String) (input : Option Json) (w : W)
        → authorized allowed name ≡ true
        → I w
        → I (host.dispatch name input w).1
    pub aborted : (w : W) → I w → I (host.aborted w).1
    pub past_deadline : (w : W) → I w → I (host.past_deadline w).1
    pub progress : (n : ℕ) (tools : List String) (w : W) → I w → I (host.progress n tools w).1
    pub recall : (m : List ℕ) (w : W) → I w → I (host.recall m w).1
    pub remember : (m : List ℕ) (kind : String) (w : W) → I w → I (host.remember m kind w).1

  abbrev pub Answered : Answer Step → Type 0
  Answered (answer st) = IsAnswered st
  Answered (raise e) = Unit {0}

  module _ (I : W → Type 0) (keep : Respects I) where
    -- The blocks of a step leave the messages alone and keep `I`.
    record Ran (s : State W) (r : Answer Step × State W) : Type 0 where
      answered : Answered r.0
      messages : r.1.messages ≡ s.messages
      world : I r.1.world

    after_dispatch-Ran :
        (id name : String) (input : Option Json) (next : Step → State W → Answer Step × State W)
        (st : Step) (s : State W) (r : Answer (List ℕ × Bool) × W)
        → ((t : Step) (s' : State W) → IsAnswered t → I s'.world → Ran s' (next t s'))
        → IsAnswered st
        → I r.1
        → Ran s (after_dispatch host allowed id name input next st s r)
    unfolding after_dispatch
    after_dispatch-Ran id name input next st s (answer (content, is_error), w) ih h i =
        let ran =
          ih (add_call id name input content is_error st) (record s { world = w })
            (add_call-IsAnswered id name input content is_error st h) i in
        record { answered = ran.answered; messages = ran.messages; world = ran.world }
    after_dispatch-Ran id name input next st s (raise e, w) ih h i = record {
      answered = tt;
      messages = refl;
      world = i;
    }

    run_blocks-Ran :
        (fs : List Frame) (st : Step) (s : State W)
        → IsAnswered st
        → I s.world
        → Ran s (run_blocks host allowed fs st s)
    unfolding run_blocks
    run_blocks-Ran [] st s h i = record { answered = h; messages = refl; world = i }
    run_blocks-Ran (Frame.text p ∷ fs) st s h i =
        run_blocks-Ran fs (add_text p st) s (add_text-IsAnswered p st h) i
    run_blocks-Ran (Frame.usage a b ∷ fs) st s h i =
        let ran =
          run_blocks-Ran fs st
            (record s { input_tokens = s.input_tokens + a; output_tokens = s.output_tokens + b }) h
            i in
        record { answered = ran.answered; messages = ran.messages; world = ran.world }
    run_blocks-Ran (Frame.tool_use id name input ∷ fs) st s h i =
        elim (Bool-cases (authorized allowed name)) [
          | inl granted ↦ rw granted (
              after_dispatch-Ran id name input (run_blocks host allowed fs) st s
                (host.dispatch name input s.world) (run_blocks-Ran fs) h
                (keep.dispatch name input s.world granted i))
          | inr denied ↦ rw denied (
              run_blocks-Ran fs (add_call id name input (refused host allowed name) true st) s
                (add_call-IsAnswered id name input (refused host allowed name) true st h) i)
        ]
    run_blocks-Ran (Frame.other p ∷ fs) st s h i = run_blocks-Ran fs st s h i

    abbrev Good : State W → Type 0
    Good s = Paired s.messages × I s.world

    abbrev KeepsGood : (State W → Exit × State W) → Type 0
    KeepsGood next = (s : State W) → Good s → Good (next s).1

    after_note-Good :
        (m : List ℕ) (s : State W) (r : Answer (Unit {0}) × W)
        → Paired s.messages
        → I r.1
        → Good (after_note host allowed m s r).1
    after_note-Good m s (answer x, w) p i = (p, i)
    after_note-Good m s (raise e, w) p i = (p, i)

    after_user-Good :
        (m : List ℕ) (s : State W) (r : Answer (Unit {0}) × W)
        → Paired s.messages
        → I r.1
        → Good (after_user host allowed m s r).1
    after_user-Good m s (answer x, w) p i =
        after_note-Good m s _ p (keep.remember m "agent_action" w i)
    after_user-Good m s (raise e, w) p i = (p, i)

    answered-Good :
        (user m : List ℕ) (s : State W) → Good s → Good (answered host allowed user m s).1
    unfolding answered
    answered-Good user [] s (p, i) =
        after_note-Good [] s _ p (keep.remember user "user_message" s.world i)
    answered-Good user (c ∷ cs) s (p, i) =
        after_user-Good (c ∷ cs) s _ p (keep.remember user "user_message" s.world i)

    after_progress-Good :
        (next : State W → Exit × State W) (s : State W) (r : Bool × W)
        → KeepsGood next
        → Paired s.messages
        → I r.1
        → Good (after_progress host allowed next s r).1
    unfolding after_progress
    after_progress-Good next s (true, w) k p i = (p, i)
    after_progress-Good next s (false, w) k p i = k (record s { world = w }) (p, i)

    -- The assistant's message and the results that answer it.
    said-Paired :
        (s : State W) (content results : List Block)
        → Paired s.messages
        → block_results results ≡ block_uses content
        → block_results content ≡ []
        → block_uses results ≡ []
        → Paired (say host allowed "user" results (say_assistant host allowed content s)).messages
    said-Paired s [] results p e f g = Paired-append s.messages _ p (e, g)
    said-Paired s (b ∷ bs) results p e f g =
        rw append_assoc (Paired-append s.messages _ p (f, (e, g)))

    -- The assistant's message alone, where it calls no tool.
    final-Paired :
        (s : State W) (content : List Block)
        → Paired s.messages
        → block_uses content ≡ []
        → block_results content ≡ []
        → Paired (say_assistant host allowed content s).messages
    final-Paired s [] p e f = p
    final-Paired s (b ∷ bs) p e f = Paired-append s.messages _ p (f, e)

    world-say_assistant :
        (s : State W) (content : List Block)
        → I s.world
        → I (say_assistant host allowed content s).world
    world-say_assistant s [] i = i
    world-say_assistant s (b ∷ bs) i = i

    end_step-Good :
        (user : List ℕ) (next : State W → Exit × State W) (st : Step) (results : List Block)
        (s : State W)
        → KeepsGood next
        → st.tool_results ≡ results
        → IsAnswered st
        → Good s
        → Good
            (end_step host allowed user next st results
              (say_assistant host allowed st.assistant_content s)).1
    unfolding end_step
    end_step-Good user next st [] s k e h (p, i) =
        answered-Good user _ (say_assistant host allowed st.assistant_content s) (
          final-Paired s st.assistant_content p (sym h.answers ∙ ap block_results e) h.only_uses,
          world-say_assistant s st.assistant_content i,
        )
    end_step-Good user next st (b ∷ bs) s k e h (p, i) =
        let spoken = say_assistant host allowed st.assistant_content s in
        let told = record (say host allowed "user" (b ∷ bs) spoken) {
          step_no = spoken.step_no + 1;
        } in
        after_progress-Good next told
          (host.progress told.step_no (tool_names st.assistant_content) spoken.world) k
          (said-Paired s st.assistant_content (b ∷ bs) p (sym (ap block_results e) ∙ h.answers)
            h.only_uses (sym (ap block_uses e) ∙ h.only_results))
          (keep.progress _ _ _ (world-say_assistant s st.assistant_content i))

    after_blocks-Good :
        (user : List ℕ) (next : State W → Exit × State W) (s : State W) (r : Answer Step × State W)
        → KeepsGood next
        → Paired s.messages
        → Ran s r
        → Good (after_blocks host allowed user next r).1
    unfolding after_blocks
    after_blocks-Good user next s (answer st, s') k p ran =
        end_step-Good user next st st.tool_results s' k refl ran.answered
          (subst Paired (sym ran.messages) p, ran.world)
    after_blocks-Good user next s (raise e, s') k p ran =
        (subst Paired (sym ran.messages) p, ran.world)

    after_ask-Good :
        (user : List ℕ) (next : State W → Exit × State W) (s : State W)
        (r : Answer (List Frame) × W)
        → KeepsGood next
        → Paired s.messages
        → I r.1
        → Good (after_ask host allowed user next s r).1
    unfolding after_ask
    after_ask-Good user next s (answer fs, w) k p i =
        after_blocks-Good user next (record s { world = w }) _ k p
          (run_blocks-Ran fs empty_step (record s { world = w })
            (record { answers = refl; only_uses = refl; only_results = refl }) i)
    after_ask-Good user next s (raise e, w) k p i = (p, i)

    after_deadline-Good :
        (user r : List ℕ) (next : State W → Exit × State W) (s : State W) (late : Bool × W)
        → KeepsGood next
        → Paired s.messages
        → I late.1
        → Good (after_deadline host allowed dumps limit user r next s late).1
    unfolding after_deadline compacted
    after_deadline-Good user r next s (true, w) k p i = (p, i)
    after_deadline-Good user r next s (false, w) k p i =
        let fit = compact-Paired dumps limit s.messages p in
        let ready = compacted host allowed dumps limit (record s { world = w }) in
        after_ask-Good user next ready (host.ask r ready.messages w) k fit
          (keep.ask r _ w fit (compact_lem dumps limit s.messages).small i)

    after_abort-Good :
        (user r : List ℕ) (next : State W → Exit × State W) (s : State W) (gone : Bool × W)
        → KeepsGood next
        → Paired s.messages
        → I gone.1
        → Good (after_abort host allowed dumps limit user r next s gone).1
    unfolding after_abort
    after_abort-Good user r next s (true, w) k p i = (p, i)
    after_abort-Good user r next s (false, w) k p i =
        after_deadline-Good user r next (record s { world = w }) _ k p (keep.past_deadline w i)

    steps-Good : (user r : List ℕ) (n : ℕ) → KeepsGood (steps host allowed dumps limit user r n)
    unfolding steps
    steps-Good user r zero s good = good
    steps-Good user r (suc n) s (p, i) =
        after_abort-Good user r (steps host allowed dumps limit user r n) s (host.aborted s.world)
          (steps-Good user r n) p (keep.aborted s.world i)

    -- What the `finally` of a turn saves: nothing, or a paired and bounded transcript.
    abbrev pub SavedWell : Option (List Message) → Type 0
    SavedWell none = Unit {0}
    SavedWell (some ms) = Paired ms × IsBounded ms

    after_recall-Safe :
        (max_steps : ℕ) (stored : List Message) (user_message : List ℕ) (q : Answer (List ℕ) × W)
        → Paired stored
        → I q.1
        → let r = after_recall host allowed dumps limit max_steps stored user_message q in
          SavedWell r.saved × I r.world
    after_recall-Safe max_steps stored user_message (answer remembered, w) p i =
        let (paired, world) =
          steps-Good user_message remembered max_steps (start_turn stored user_message w)
            (Paired-append stored _ p (refl, refl), i) in
        ((compact-Paired dumps limit _ paired, (compact_lem dumps limit _).small), world)
    after_recall-Safe max_steps stored user_message (raise e, w) p i = (tt, i)

    -- However a turn ends, on a stored transcript that is paired: what it saves is paired and
    -- bounded, and each of its calls was one that `Respects` allows: the model was asked with paired
    -- and bounded messages only, and authorized tools only were dispatched.
    pub turn_locked_safe :
        (manifest : List String) (max_steps : ℕ) (stored : List Message) (user_message : List ℕ)
        (w : W)
        → Paired stored
        → I w
        → let r = turn_locked host allowed dumps limit manifest max_steps stored user_message w in
          SavedWell r.saved × I r.world
    unfolding turn_locked
    turn_locked_safe manifest max_steps stored user_message w p i =
        elim (Bool-cases (known_tools manifest allowed)) [
          | inl known ↦
              rw known
                (after_recall-Safe max_steps stored user_message _ p (keep.recall user_message w i))
          | inr strange ↦ rw strange (tt, i)
        ]
