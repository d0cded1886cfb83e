-- ===== src/Agent/Memory/Tests.antt =====
-- A child that makes callbacks before it replies; the world counts the runs of the model.
use sigil_pi.Prelude.{
  ◌≤◌, ap, sym, String, Bool, ℕ, suc, ◌≡◌, refl, arith, true, false, Option, none, some, List, [],
  ◌∷◌, ◌++◌, ◌⊎◌,
}
use sigil_pi.Agent.Json.{Json, array, cons, nil, string, integer, object, end, field, pos, Fields}
use sigil_pi.Agent.Memory.{Host, Read, closed, doc, reply, error, call}
use sigil_pi.Agent.Bytes.{bytes}
use sigil_pi.Agent.Clip.{clip_tool_result}
use sigil_pi.Agent.Memory.Buffer.{State, records}
use sigil_pi.Agent.Memory.Buffer.Bounded.{IsDown, newest, requests, records_down}
use sigil_pi.Agent.Memory.Recall.{Texts, heading, recall, Fits, recall_lem}
use sigil_pi.Agent.Memory.Protocol.{Counts, IsAnswered, call_lem}

abbrev World : Type 0
World = ℕ × List Read

abbrev next_line : World → Read × World
next_line (n, []) = (closed, (n, []))
next_line (n, l ∷ ls) = (l, (n, ls))

abbrev completer : Json → World → Option Json × World
completer v (n, ls) = (some v, (suc n, ls))

abbrev host : Host World
host = record {
  float_is = λ literal n. false;
  acquire_within = λ w. (true, w);
  acquire = λ w. w;
  release = λ w. w;
  terminate = λ w. w;
  write = λ v w. (none, w);
  readline = next_line;
  complete = some completer;
  embed = none;
}

abbrev runs : World → ℕ
runs (n, ls) = n

abbrev callback : Read
callback =
    doc (object (field "callback" (string "model_request") (field "call_id" (integer (pos 1)) end)))

abbrev answer_7 : Fields
answer_7 = field "id" (integer (pos 7)) end

abbrev request : Fields
request = field "op" (string "consolidate_all") end

call_answers :
    call host false request 6 (0, callback ∷ callback ∷ doc (object answer_7) ∷ [])
    ≡ (reply answer_7, 7, (2, []))
unfolding call
call_answers = refl

call_wrong_id :
    call host true request 7 (0, doc (object answer_7) ∷ [])
    ≡ (reply (error "dead" "protocol corrupt; sidecar killed"), 8, (0, []))
unfolding call
call_wrong_id = refl

next_line-runs : (w : World) → runs (next_line w).1 ≡ runs w
next_line-runs (n, []) = refl
next_line-runs (n, l ∷ ls) = refl

abbrev model_of : Option (Json → World → Option Json × World) → Json → World → Option Json × World
model_of none = completer
model_of (some f) = f

completer-runs :
    (f : Json → World → Option Json × World) (v : Json) (w : World)
    → host.complete ≡ some f
    → runs (f v w).1 ≤ suc (runs w)
completer-runs f v w same = let is_f : completer ≡ f = ap model_of same in rw (sym is_f) omega arith

host-Counts : Counts host runs
host-Counts = record {
  at_readline = next_line-runs;
  at_write = λ v w. refl;
  at_acquire_within = λ w. refl;
  at_acquire = λ w. refl;
  at_release = λ w. refl;
  at_terminate = λ w. refl;
  at_complete = λ f v w same. completer-runs f v w same;
  at_embed = λ f texts v w same. absurd (ground (arith, same));
}

abbrev lines : List Read
lines = callback ∷ callback ∷ doc (object answer_7) ∷ []

call_lem_example :
    (call host true request 6 (0, lines)
      ≡ (reply (error "busy" "memory is mid-consolidation"), 6, (host.acquire_within (0, lines)).1))
    ⊎ IsAnswered host runs 6 (0, lines) (call host true request 6 (0, lines))
call_lem_example = call_lem host runs true request 6 (0, lines) host-Counts

-- The host while a consolidation holds the lock.
abbrev busy : Host World
busy = record host { acquire_within = λ w. (false, w) }

busy-IsDown : IsDown busy
unfolding call
busy-IsDown asked last w = (error "busy" "memory is mid-consolidation", refl, refl)

abbrev two_records : List (String × String × String)
two_records =
    ("s", "hello", "user_message") ∷ ("s", "", "agent_action") ∷ ("s", "bye", "user_message") ∷ []

abbrev empty : State
empty = record { last_id = 0; pending = [] }

records_down_example :
    ((records busy two_records empty (0, [])).0 ≡ true)
    × ((records busy two_records empty (0, [])).1.pending ≡ newest (requests two_records))
records_down_example = records_down busy two_records empty (0, []) busy-IsDown (omega arith)

abbrev texts : Texts
texts = record { strip = λ s. s; utf8 = bytes; ignore = λ b. b }

abbrev no_float : String → ℕ → Bool
no_float literal n = false

abbrev fact : Fields
fact = field "id" (integer (pos 1)) (
    field "ok"
      (object (field "facts" (array (cons (object (field "text" (string "tea") end)) nil)) end))
      end)

recall_answers :
    (recall texts no_float host 512 1000 "s" "q" 0 (0, doc (object fact) ∷ [])).0
    ≡ some (heading ++ bytes "- [facts] tea")
unfolding recall clip_tool_result
recall_answers = refl

recall_lem_example :
    Fits texts no_float
      (λ raw. omega arith)
      40
      (recall texts no_float host 512 40 "s" "q" 0 (0, doc (object fact) ∷ [])).0
    × ((host.acquire_within (0, doc (object fact) ∷ [])).0 ≡ false
        → (recall texts no_float host 512 40 "s" "q" 0 (0, doc (object fact) ∷ [])).0 ≡ some [])
recall_lem_example =
    recall_lem texts no_float (λ raw. omega arith) 40 host 512 "s" "q" 0 (0, doc (object fact) ∷ [])
