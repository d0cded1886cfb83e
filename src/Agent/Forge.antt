-- ===== src/Agent/Forge.antt =====
-- `PiAgent._forge` of agent.py: the one way to a guest execution. `calls` are the runs that reached
-- the runtime, `audit` the calls of `self.audit.record`, which never raises. Texts are UTF-8 bytes,
-- times are in microseconds.
pub mod Audited
pub mod Runs
use sigil_pi.Prelude.{
  ℕ, ◌+◌, ◌-◌, String, Bool, true, false, Option, none, some, List, [], ◌∷◌, ◌++◌, leb,
  if◌then◌else◌,
}
use sigil_pi.Agent.Bytes.{bytes}

abbrev pub Grants : Type 0
Grants = List (String × List String)

-- What the runtime is given.
pub record Request : Type 0 where
  pub source : List ℕ
  pub input : List ℕ
  pub grants : Option Grants
  pub fuel : ℕ

-- The arguments of `self.audit.record`.
pub record Record : Type 0 where
  pub session : String
  pub kind : String
  pub request : Request
  pub output : Option (List ℕ)
  pub err : Option (List ℕ)

-- What `self._mcp.forge` does: an output, a status that is not "ok" with the first diagnostic's code
-- and message, or an exception.
pub data Ran : Type 0 where
  finished : List ℕ → Ran
  refused : Option (List ℕ) → List ℕ → Ran
  broke : Ran

-- How `_forge` ends: with `(out, err)`, a `TimeoutError`, or the runtime's exception.
pub data Forged : Type 0 where
  output : List ℕ → Forged
  failure : List ℕ → Forged
  timeout raised : Forged

pub record Host (W : Type 0) : Type 0 where
  pub monotonic : W → ℕ × W
  -- `self._forge_lock.acquire`, without and with a timeout
  pub lock : W → W
  pub lock_within : ℕ → W → Bool × W
  pub run : Request → Option ℕ → W → Ran × W
  -- `s[:200]`
  pub first_200 : List ℕ → List ℕ

pub record State (W : Type 0) : Type 0 where
  pub queue_wait : ℕ
  pub held : Bool
  pub calls : List Request
  pub audit : List Record
  pub world : W

abbrev pub code_text : Option (List ℕ) → List ℕ
code_text none = bytes "None"
code_text (some code) = code

abbrev pub release : {W : Type 0} → State W → State W
release s = record s { held = false }

module _ {W : Type 0} (host : Host W) where
  -- `self.audit.record`, where there is a session.
  abbrev pub recorded :
      Option String → String → Request → Option (List ℕ) → Option (List ℕ) → State W → State W
  recorded none kind r out err s = s
  recorded (some session) kind r out err s = record s {
    audit =
        s.audit
        ++ record { session = session; kind = kind; request = r; output = out; err = err } ∷ [];
  }

  -- An exception of the runtime is recorded before the lock is released.
  abbrev pub broken : Option String → String → Request → Bool × State W → Forged × State W
  broken session kind r (true, s) =
      (timeout, release (recorded session kind r none (some (bytes "turn_deadline_exceeded")) s))
  broken session kind r (false, s) =
      (raised, release (recorded session kind r none (some (bytes "runtime_exception")) s))

  -- `deadline is not None and time.monotonic() >= deadline`
  abbrev pub past : Option ℕ → State W → Bool × State W
  past none s = (false, s)
  past (some d) s = let (now, w) = host.monotonic s.world in (leb d now, record s { world = w })

  unfoldable pub after_run :
      Option ℕ → Option String → String → Request → Ran × State W → Forged × State W
  after_run deadline session kind r (finished out, s) =
      (output out, recorded session kind r (some out) none (release s))
  after_run deadline session kind r (refused code message, s) =
      let err = code_text code ++ (bytes ": " ++ host.first_200 message) in
      (failure err, recorded session kind r none (some err) (release s))
  after_run deadline session kind r (broke, s) = broken session kind r (past deadline s)

  -- The runtime's call.
  unfoldable pub execute : Option ℕ → Request → State W → Ran × State W
  execute timeout_s r s =
      let (ran, w) = host.run r timeout_s s.world in
      (ran, record s { calls = s.calls ++ r ∷ []; world = w })

  unfoldable pub within : Option ℕ → Option String → String → Request → State W → Forged × State W
  unfolding execute after_run
  within none session kind r s = after_run none session kind r (execute none r s)
  within (some d) session kind r s =
      let (now, w) = host.monotonic s.world in
      let s' = record s { world = w } in
      if leb d now
      then (timeout, release s')
      else after_run (some d) session kind r (execute (some (d - now)) r s')

  -- The lock, unless the deadline passes first.
  unfoldable pub take_lock : Option ℕ → State W → Bool × State W
  take_lock none s = (true, record s { held = true; world = host.lock s.world })
  take_lock (some d) s =
      let (now, w) = host.monotonic s.world in
      let (got, w') = host.lock_within (d - now) w in
      if leb d now
      then (false, record s { world = w })
      else (got, record s { held = got; world = w' })

  unfoldable pub locked :
      ℕ → Option ℕ → Option String → String → Request → Bool × State W → Forged × State W
  unfolding within
  locked started deadline session kind r (false, s) = (timeout, s)
  locked started deadline session kind r (true, s) =
      let (now, w) = host.monotonic s.world in
      within deadline session kind r
        (record s { queue_wait = s.queue_wait + (now - started); world = w })

  unfoldable pub forge : Option ℕ → Option String → String → Request → State W → Forged × State W
  unfolding locked take_lock
  forge deadline session kind r s =
      let (started, w) = host.monotonic s.world in
      locked started deadline session kind r (take_lock deadline (record s { world = w }))
