-- ===== src/Runtime.antt =====
-- `SupervisedRuntime` of runtime_client.py: one endpoint over a succession of compilers. The
-- compilers, the clock and the other threads act on a world `W`; times are in microseconds. What a
-- method raises is its `Failure`. The lock is held throughout each method but `close`.
pub mod Ownership
pub mod Recovery
pub mod Client
mod Tests
use sigil_pi.Prelude.{
  ℕ, zero, suc, ◌+◌, ◌-◌, min, Bool, true, false, not, ◌&&◌, ◌||◌, Option, none, some, List, [],
  ◌∷◌, ◌++◌, ltb, length, if◌then◌else◌,
}

-- `RuntimeProtocolError`, `RuntimeClientTimeout` with its `budget_expired`, another
-- `RuntimeClientError`, and any other exception.
pub data Failure : Type 0 where
  protocol_error client_error other_error : Failure
  client_timeout : Bool → Failure

pub data Outcome {ℓ} (A : Type ℓ) : Type ℓ where
  returned : A → Outcome A
  raised : Failure → Outcome A

pub record Host (C W Request Result : Type 0) : Type 0 where
  pub clock : W → ℕ × W
  -- `self._spawn()`, and `client.initialize(timeout_s=…)`
  pub spawn : W → Outcome C × W
  pub initialize : C → ℕ → W → Option Failure × W
  -- `client.forge(…)`, with a timeout where there is a deadline
  pub client_forge : C → Request → Option ℕ → W → Outcome Result × W
  -- `client._proc.kill()`, its exceptions dropped, and the graceful `client.close()`
  pub kill : C → W → W
  pub close_client : C → W → W
  -- `self._closed`, which another thread may set, and setting it
  pub closed : W → Bool
  pub set_closed : W → W

pub record Settings : Type 0 where
  pub handshake_timeout : ℕ
  pub min_forge_budget : ℕ
  pub unhealthy_budget : ℕ
  pub unhealthy_window : ℕ

pub record State (C : Type 0) : Type 0 where
  pub client : Option C
  pub generation : ℕ
  pub unhealthy : List ℕ
  pub replacements : ℕ
  pub unrecoverable : Bool

abbrev pub initial : {C : Type 0} → State C
initial = record {
  client = none;
  generation = 0;
  unhealthy = [];
  replacements = 0;
  unrecoverable = false;
}

-- `while self._unhealthy and now - self._unhealthy[0] > window: popleft()`
unfoldable pub trim : ℕ → ℕ → List ℕ → List ℕ
trim window now [] = []
trim window now (u ∷ us) =
    let rest = trim window now us in if ltb (u + window) now then rest else u ∷ us

abbrev pub benign : Failure → Bool
benign (client_timeout expired) = expired
benign _ = false

module _ {C W Request Result : Type 0} (host : Host C W Request Result) (settings : Settings) where
  abbrev pub is_healthy : State C → W → Bool
  is_healthy s w = not (host.closed w) && not s.unrecoverable

  -- `_mark_unhealthy`, at the clock's reading.
  unfoldable pub unhealthy_at : ℕ → State C → State C
  unhealthy_at now s =
      let recent = trim settings.unhealthy_window now (s.unhealthy ++ now ∷ []) in
      record s {
        unhealthy = recent;
        replacements = s.replacements + 1;
        unrecoverable = ltb settings.unhealthy_budget (length recent) || s.unrecoverable;
      }

  unfoldable pub mark_unhealthy : State C → W → State C × W
  mark_unhealthy s w = let (now, w') = host.clock w in (unhealthy_at now s, w')

  -- `_residue`: the time left, `none` without a deadline. A time below 0 is passed on as 0.
  unfoldable pub residue : Option ℕ → W → Option ℕ × W
  residue none w = (none, w)
  residue (some deadline) w = let (now, w') = host.clock w in (some (deadline - now), w')

  -- `self._residue(deadline) < self._min_forge_budget_s`, whose budget is positive.
  abbrev pub too_short : Option ℕ → Bool
  too_short none = false
  too_short (some left) = ltb left settings.min_forge_budget

  abbrev pub handshake : Option ℕ → ℕ
  handshake none = settings.handshake_timeout
  handshake (some left) = min left settings.handshake_timeout

  abbrev pub Started : Type 0
  Started = Option Failure × State C × W

  -- The end of `_start_generation`: the client is installed.
  unfoldable pub after_install : Option ℕ → C → State C → W → Started
  unfolding residue
  after_install deadline client s w =
      let (left, w') = residue deadline w in
      if host.closed w
      then (some client_error, record s { client = none }, host.kill client w)
      else if too_short left
      then (some (client_timeout true), s, w')
      else (none, s, w')

  unfoldable pub after_initialize : Option ℕ → C → State C → Option Failure × W → Started
  unfolding after_install mark_unhealthy
  after_initialize deadline client s (some e, w) =
      let (s', w') = mark_unhealthy s (host.kill client w) in (some e, s', w')
  after_initialize deadline client s (none, w) =
      after_install deadline client
        (record s { client = some client; generation = s.generation + 1 }) w

  unfoldable pub after_spawn : Option ℕ → State C → Outcome C × W → Started
  unfolding after_initialize residue
  after_spawn deadline s (raised e, w) = (some e, s, w)
  after_spawn deadline s (returned client, w) =
      let (left, w') = residue deadline w in
      after_initialize deadline client s (host.initialize client (handshake left) w')

  unfoldable pub start_generation : Option ℕ → State C → W → Started
  unfolding after_spawn residue
  start_generation deadline s w =
      let (left, w') = residue deadline w in
      if s.unrecoverable
      then (some client_error, s, w)
      else if too_short left
      then (some (client_timeout true), s, w')
      else after_spawn deadline s (host.spawn w')

  -- `_retire`: the client is dropped, counted unless its caller's time ran out, and killed.
  unfoldable pub retire : C → Failure → State C → W → State C × W
  unfolding mark_unhealthy
  retire dead e s w =
      let (counted, w') = mark_unhealthy (record s { client = none }) w in
      if benign e
      then (record s { client = none }, host.kill dead w)
      else (counted, host.kill dead w')

  abbrev pub Forged : Type 0
  Forged = Outcome Result × State C × W

  unfoldable pub after_forge : C → State C → Outcome Result × W → Forged
  unfolding retire
  after_forge client s (returned result, w) = (returned result, s, w)
  after_forge client s (raised protocol_error, w) = (raised protocol_error, s, w)
  after_forge client s (raised e, w) = let (s', w') = retire client e s w in (raised e, s', w')

  -- The forge with the client that is installed; without one, its attribute is missing, which counts as
  -- an unhealthy end.
  unfoldable pub forge_with : Request → Option ℕ → Option C → State C → W → Forged
  unfolding after_forge residue mark_unhealthy
  forge_with request deadline none s w =
      let (s', w') = mark_unhealthy s (residue deadline w).1 in (raised other_error, s', w')
  forge_with request deadline (some client) s w =
      let (left, w') = residue deadline w in
      after_forge client s (host.client_forge client request left w')

  unfoldable pub after_start : Request → Option ℕ → Started → Forged
  unfolding forge_with
  after_start request deadline (some e, s, w) = (raised e, s, w)
  after_start request deadline (none, s, w) = forge_with request deadline s.client s w

  unfoldable pub forge_until : Request → Option ℕ → State C → W → Forged
  unfolding after_start start_generation
  forge_until request deadline s w = elim s.client [
    | none ↦ after_start request deadline (start_generation deadline s w)
    | some client ↦ forge_with request deadline (some client) s w
  ]

  abbrev pub deadline_of : Option ℕ → W → Option ℕ × W
  deadline_of none w = (none, w)
  deadline_of (some timeout) w = let (now, w') = host.clock w in (some (now + timeout), w')

  unfoldable pub forge : Request → Option ℕ → State C → W → Forged
  unfolding forge_until
  forge request timeout s w =
      let (deadline, w') = deadline_of timeout w in
      if host.closed w then (raised client_error, s, w) else forge_until request deadline s w'

  -- `close`: `acquired` is whether the lock was free in time.
  unfoldable pub close : Bool → State C → W → State C × W
  close true s w = elim s.client [
    | none ↦ (record s { client = none }, host.set_closed w)
    | some client ↦ (record s { client = none }, host.close_client client (host.set_closed w))
  ]
  close false s w = elim s.client [
    | none ↦ (s, host.set_closed w)
    | some client ↦ (s, host.kill client (host.set_closed w))
  ]
