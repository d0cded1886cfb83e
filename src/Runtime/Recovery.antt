-- ===== src/Runtime/Recovery.antt =====
-- A caller whose own time ran out costs the next caller nothing.
use sigil_pi.Prelude.{ℕ, ◌+◌, ◌-◌, ◌≤◌, ◌≡◌, refl, arith, min, ltb, true, false, Option, none, some}
use sigil_pi.Runtime.{
  client_timeout, returned, raised, Host, Settings, State, residue, after_install, after_initialize,
  after_spawn, start_generation, retire, after_forge, forge_with, after_start, forge_until, forge,
}

module _ {C W Request Result : Type 0} (host : Host C W Request Result) (settings : Settings) where
  -- The forge that is killed.
  forge_expires :
      (s : State C) (c : C) (w wa wb w1 : W) (timeout start now : ℕ) (request : Request)
      → s.client ≡ some c
      → host.closed w ≡ false
      → host.clock w ≡ (start, wa)
      → host.clock wa ≡ (now, wb)
      → host.client_forge c request (some (start + timeout - now)) wb
        ≡ (raised (client_timeout true), w1)
      → forge host settings request (some timeout) s w
        ≡ (raised (client_timeout true), record s { client = none }, host.kill c w1)
  unfolding forge forge_until forge_with after_forge retire residue
  forge_expires s c w wa wb w1 timeout start now request inst open_ first second late =
      rw (open_, inst, first, second, late)

  -- A reading of the clock, which a forge without a deadline does not take.
  abbrev pub Reads : Option ℕ → W → ℕ → W → Type 0
  Reads none w now w' = w ≡ w'
  Reads (some timeout) w now w' = host.clock w ≡ (now, w')

  -- What is left at `now` of a timeout that started at `start`.
  abbrev pub left_of : Option ℕ → ℕ → ℕ → Option ℕ
  left_of none start now = none
  left_of (some timeout) start now = some (start + timeout - now)

  -- That is enough for a forge.
  abbrev pub IsEnough : Option ℕ → Type 0
  IsEnough none = Unit {0}
  IsEnough (some left) = settings.min_forge_budget ≤ left

  -- The time given to the handshake.
  abbrev pub handshake_of : Option ℕ → ℕ
  handshake_of none = settings.handshake_timeout
  handshake_of (some left) = min left settings.handshake_timeout

  -- The forge that starts a compiler and uses it.
  forge_starts :
      (s : State C) (c : C) (w v1 v2 w3 v3 w4 v4 v5 w5 : W) (timeout : Option ℕ)
      (start at_start at_spawn at_install at_forge : ℕ) (request : Request) (x : Result)
      → s.client ≡ none
      → s.unrecoverable ≡ false
      → host.closed w ≡ false
      → Reads timeout w start v1
      → Reads timeout v1 at_start v2
      → IsEnough (left_of timeout start at_start)
      → host.spawn v2 ≡ (returned c, w3)
      → Reads timeout w3 at_spawn v3
      → host.initialize c (handshake_of (left_of timeout start at_spawn)) v3 ≡ (none, w4)
      → host.closed w4 ≡ false
      → Reads timeout w4 at_install v4
      → IsEnough (left_of timeout start at_install)
      → Reads timeout v4 at_forge v5
      → host.client_forge c request (left_of timeout start at_forge) v5 ≡ (returned x, w5)
      → forge host settings request timeout s w
        ≡ (returned x, record s { client = some c; generation = s.generation + 1 }, w5)
  unfolding forge forge_until start_generation after_spawn after_initialize after_install
      after_start forge_with after_forge residue
  forge_starts s c w v1 v2 w3 v3 w4 v4 v5 w5 none start at_start at_spawn at_install at_forge
        request x empty fine open_ r1 r2 enough born r3 ready still_open r4 enough4 r5 answered =
      rw (open_, empty, fine, r1, r2, born, r3, ready, still_open, r4, r5, answered)
  forge_starts s c w v1 v2 w3 v3 w4 v4 v5 w5 (some timeout) start at_start at_spawn at_install
        at_forge request x empty fine open_ r1 r2 enough born r3 ready still_open r4 enough4 r5
        answered =
      let long : ltb (start + timeout - at_start) settings.min_forge_budget ≡ false =
        ground (arith, enough) in
      let long4 : ltb (start + timeout - at_install) settings.min_forge_budget ≡ false =
        ground (arith, enough4) in
      rw (open_, r1, empty, fine, r2, long, born, r3, ready, still_open, r4, long4, r5, answered)

  -- A forge with the installed compiler that its caller's own time ran out in is killed, and nothing is
  -- counted against the endpoint. If the next forge, with a deadline or without one, has the least time
  -- for a forge left where it starts the new compiler and again where it has installed it, and that
  -- compiler starts and answers, it gets the answer, from the next generation.
  pub forge_recovers :
      (s : State C) (c c' : C) (w wa wb w1 v1 v2 w3 v3 w4 v4 v5 w5 : W) (timeout start now : ℕ)
      (timeout' : Option ℕ) (start' at_start at_spawn at_install at_forge : ℕ)
      (request request' : Request) (x : Result)
      → s.client ≡ some c
      → s.unrecoverable ≡ false
      → host.closed w ≡ false
      → host.clock w ≡ (start, wa)
      → host.clock wa ≡ (now, wb)
      → host.client_forge c request (some (start + timeout - now)) wb
        ≡ (raised (client_timeout true), w1)
      → host.closed (host.kill c w1) ≡ false
      → Reads timeout' (host.kill c w1) start' v1
      → Reads timeout' v1 at_start v2
      → IsEnough (left_of timeout' start' at_start)
      → host.spawn v2 ≡ (returned c', w3)
      → Reads timeout' w3 at_spawn v3
      → host.initialize c' (handshake_of (left_of timeout' start' at_spawn)) v3 ≡ (none, w4)
      → host.closed w4 ≡ false
      → Reads timeout' w4 at_install v4
      → IsEnough (left_of timeout' start' at_install)
      → Reads timeout' v4 at_forge v5
      → host.client_forge c' request' (left_of timeout' start' at_forge) v5 ≡ (returned x, w5)
      → let (answer, s', w') = forge host settings request (some timeout) s w in
        (answer ≡ raised (client_timeout true))
        × (forge host settings request' timeout' s' w'
            ≡ (returned x, record s { client = some c'; generation = s.generation + 1 }, w5))
  forge_recovers s c c' w wa wb w1 v1 v2 w3 v3 w4 v4 v5 w5 timeout start now timeout' start'
        at_start at_spawn at_install at_forge request request' x inst fine open_ first second late
        open1 r1 r2 enough born r3 ready open4 r4 enough4 r5 answered =
      rw (forge_expires s c w wa wb w1 timeout start now request inst open_ first second late) (
        refl,
        forge_starts (record s { client = none }) c' (host.kill c w1) v1 v2 w3 v3 w4 v4 v5 w5
            timeout' start' at_start at_spawn at_install at_forge request' x refl fine open1 r1 r2
            enough born r3 ready open4 r4 enough4 r5 answered,
      )
