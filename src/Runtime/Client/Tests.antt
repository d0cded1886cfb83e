-- ===== src/Runtime/Client/Tests.antt =====
-- A compiler that answers from a list of lines; the world counts what is sent and received.
use sigil_pi.Prelude.{ℕ, suc, ◌≡◌, refl, Bool, true, false, none, some, List, [], ◌∷◌}
use sigil_pi.Agent.Json.{Json, integer, pos, string, array, object, nil, cons, end, field}
use sigil_pi.Runtime.{returned, raised, client_timeout}
use sigil_pi.Runtime.Client.{
  Line, ended, doc, Pipes, Client, forge, forge_arguments, request, budget_expired,
}
use sigil_pi.Runtime.Client.Stream.{Counts, Fate, request-Fate}

abbrev World : Type 0
World = ℕ × ℕ × List Line

abbrev next_line : World → Line × World
next_line (s, r, []) = (ended, (s, suc r, []))
next_line (s, r, l ∷ ls) = (l, (s, suc r, ls))

abbrev is_ready : World → Bool
is_ready (s, r, []) = false
is_ready (s, r, l ∷ ls) = true

abbrev pipes : Pipes World
pipes = record {
  write = λ f w. (true, (suc w.0, w.1, w.2));
  select = λ t w. (is_ready w, w);
  readline = next_line;
  kill = λ w. w;
  float_is = λ literal n. false;
  loads = λ text. some (string text);
}

abbrev answer : ℕ → Json → Line
answer id result = doc (
    object
      (field "jsonrpc" (string "2.0") (field "id" (integer (pos id)) (field "result" result end))))

abbrev tool_result : Json
tool_result =
    object (field "content" (array (cons (object (field "text" (string "42") end)) nil)) end)

abbrev client : Client
client = record { next_id = 3; closed = false }

forge_answers :
    forge pipes 90
      (forge_arguments "main" "" 5 none)
      (some 40)
      client
      (0, 0, answer 3 tool_result ∷ [])
    ≡ (returned (string "42"), record { next_id = 4; closed = false }, (1, 1, []))
unfolding forge
forge_answers = refl

forge_times_out :
    forge pipes 90 (forge_arguments "main" "" 5 none) (some 40) client (0, 0, [])
    ≡ (raised (client_timeout true), record { next_id = 4; closed = true }, (1, 0, []))
unfolding forge
forge_times_out = refl

received-next_line : (w : World) → (next_line w).1.1 ≡ suc w.1
received-next_line (s, r, []) = refl
received-next_line (s, r, l ∷ ls) = refl

sent-next_line : (w : World) → (next_line w).1.0 ≡ w.0
sent-next_line (s, r, []) = refl
sent-next_line (s, r, l ∷ ls) = refl

pipes-Counts : Counts pipes (λ w. w.0) (λ w. w.1)
pipes-Counts = record {
  sent-write = λ f w h. refl;
  received-write = λ f w. refl;
  sent-select = λ t w. refl;
  received-select = λ t w. refl;
  sent-readline = sent-next_line;
  received-readline = received-next_line;
}

request-Fate_example :
    Fate pipes
      (λ w. w.0)
      (λ w. w.1)
      3
      (budget_expired 90 (some 40))
      (0, 0, answer 3 tool_result ∷ [])
      (request pipes 90 "initialize"
        (object end)
        (some 40)
        client
        (0, 0, answer 3 tool_result ∷ []))
request-Fate_example =
    request-Fate pipes (λ w. w.0) (λ w. w.1) 90 "initialize" (object end) (some 40) client
      (0, 0, answer 3 tool_result ∷ []) pipes-Counts
