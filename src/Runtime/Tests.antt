-- ===== src/Runtime/Tests.antt =====
-- An endpoint over compilers that are numbered. A forge with less than a second left times out.
use sigil_pi.Prelude.{
  ℕ, ◌+◌, ◌≡◌, refl, arith, Bool, true, false, ltb, Option, none, some, List, [], ◌∷◌, ◌==◌,
  if◌then◌else◌,
}
use sigil_pi.Runtime.{
  client_timeout, Outcome, returned, raised, Host, Settings, State, initial, forge,
  start_generation, residue, after_spawn, after_initialize, after_install, after_start, forge_with,
  after_forge, forge_until,
}
use sigil_pi.Runtime.Recovery.{forge_recovers}

-- The compilers that run, the next number, and whether the endpoint is closed.
pub record World : Type 0 where
  pub running : List ℕ
  pub next : ℕ
  pub closed : Bool

abbrev without : ℕ → List ℕ → List ℕ
without c [] = []
without c (d ∷ ds) = if c == d then without c ds else d ∷ without c ds

abbrev settings : Settings
settings = record {
  handshake_timeout = 5000000;
  min_forge_budget = 500000;
  unhealthy_budget = 3;
  unhealthy_window = 120000000;
}

-- A forge times out where it has less than a second, and the client kills its compiler then.
abbrev forged : ℕ → Option ℕ → World → Outcome ℕ × World
forged c none w = (returned 7, w)
forged c (some left) w =
    if ltb left 1000000
    then (raised (client_timeout true), record w { running = [] })
    else (returned 7, w)

abbrev host : Host ℕ World ℕ ℕ
host = record {
  clock = λ w. (100, w);
  spawn = λ w. (returned w.next, record w { running = w.next ∷ w.running; next = w.next + 1 });
  initialize = λ c t w. (none, w);
  client_forge = λ c request left w. forged c left w;
  kill = λ c w. record w { running = without c w.running };
  close_client = λ c w. record w { running = without c w.running };
  closed = λ w. w.closed;
  set_closed = λ w. record w { closed = true };
}

abbrev start : World
start = record { running = []; next = 1; closed = false }

abbrev serving : State ℕ
serving = record initial { client = some 1; generation = 1 }

abbrev one : World
one = record { running = 1 ∷ []; next = 2; closed = false }

first_forge : forge host settings 0 none initial start ≡ (returned 7, serving, one)
unfolding forge forge_until start_generation after_spawn after_initialize after_install after_start
    forge_with after_forge residue
first_forge = refl

abbrev two : World
two = record { running = 2 ∷ []; next = 3; closed = false }

abbrev none_left : World
none_left = record one { running = [] }

forge_recovers_example :
    let (answer, s', w') = forge host settings 0 (some 9) serving one in
    (answer ≡ raised (client_timeout true))
    × (forge host settings 1 (some 2000000) s' w'
        ≡ (returned 7, record serving { client = some 2; generation = 2 }, two))
forge_recovers_example =
    forge_recovers host settings serving 1 2 one one one none_left none_left none_left two two two
      two two two 9 100 100 (some 2000000) 100 100 100 100 100 0 1 7 refl refl refl refl refl refl
      refl refl refl (omega arith) refl refl refl refl refl (omega arith) refl refl
