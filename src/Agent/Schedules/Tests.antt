-- ===== src/Agent/Schedules/Tests.antt =====
-- Runs of the agent's schedules over a clock in milliseconds that turns do not advance.
use sigil_pi.Prelude.{ℕ, ◌+◌, ◌≡◌, refl, String, none, some, [], ◌∷◌}
use sigil_pi.Prelude.Dict.{Dict, get, put}
use sigil_pi.Agent.Json.{pos}
use sigil_pi.Agent.Schedules.{Entry, Host, Call, tick, entries, put_entry}
use sigil_pi.Agent.Schedules.Firing.{fired, tick_fires}

-- Each turn deletes the whole store.
abbrev host : Host ℕ
host = record { time = λ w. (w, w + 1); turn = λ session message store w. ([], w) }

abbrev store : Dict Entry
store =
    ("b", record { session = "s"; message = "m"; every_ms = 1; last_run = some 900000 })
    ∷ ("c", record { session = "s"; message = "m"; every_ms = 500; last_run = some 900000 })
    ∷ ("a", record { session = "s"; message = "m"; every_ms = 1; last_run = none })
    ∷ []

abbrev call : String → Call
call name = record { name = name; session = "s"; message = "m" }

-- "b" has missed a hundred times, and is called once.
fired_calls : (tick host [] store 1000000).calls ≡ call "a" ∷ call "b" ∷ []
unfolding tick get
fired_calls = refl

tick_fires_example :
    let t = tick host [] store 1000000 in
    (t.calls ≡ fired 1000000 [] (entries store)) × (t.running ≡ [])
tick_fires_example = tick_fires host [] store 1000000

-- A new message keeps the mark.
put_keeps_mark :
    put_entry "x" "s" "new"
      (pos 5)
      (("x", record { session = "s"; message = "old"; every_ms = 1; last_run = some 7 }) ∷ [])
    ≡ some (("x", record { session = "s"; message = "new"; every_ms = 5; last_run = some 7 }) ∷ [])
unfolding put_entry get put
put_keeps_mark = refl
