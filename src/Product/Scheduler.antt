-- ===== src/Product/Scheduler.antt =====
-- `ProductScheduler.tick` of product_service.py. What other threads and the turn itself do to the
-- shared stores while a lock is awaited and while a turn runs is the host's, arbitrary. Times are in
-- microseconds. The stores' files can be read and written.
pub mod Completion
pub mod Grants
mod Tests
use sigil_pi.Prelude.{
  ℕ, ◌+◌, String, Bool, true, false, not, Option, none, some, List, [], ◌∷◌, ◌++◌, all, map, str_eq,
  if◌then◌else◌,
}
use sigil_pi.Prelude.Dict.{Dict, get}
use sigil_pi.Product.Errors.{ProductError, Reply, ok, err}
use sigil_pi.Product.Auth.{Principal, Credential, includes, same_set, policy}
use sigil_pi.Product.Quota.{Db, Limits}
use sigil_pi.Product.Quota.Turns.{acquire_turn, settle_turn}
use sigil_pi.Product.Schedules.{Entry, claim_due, complete_claim}
use sigil_pi.Product.Service.{
  Failing, timed_out, turn_failed, turn_crashed, Turn, replied, raises, Footprint, measured,
  not_measured,
}
use sigil_pi.Product.Service.Chat.{settlement_of, or_telemetry, usage_of_turn, has_resources}

-- The two stores that the scheduler shares with other threads.
pub record Shared : Type 0 where
  pub entries : Dict Entry
  pub db : Db

pub record Host (W : Type 0) : Type 0 where
  pub monotonic : W → ℕ × W
  pub time : W → ℕ × W
  pub uuid : W → String × W
  -- `session_locks.hold`: whether it got the lock in time, and what others did meanwhile
  pub hold : String → ℕ → Shared → W → Bool × Shared × W
  pub unhold : String → W → W
  -- `turn_with_usage`, and what it and others did meanwhile
  pub turn : String → String → List String → ℕ → Shared → W → Turn × Shared × W
  pub footprint : String → W → Footprint × W
  -- the token counts of `turn_telemetry`
  pub telemetry : W → Option (ℕ × ℕ) × W
  pub digest : String → String

pub record Config : Type 0 where
  pub credentials : List Credential
  pub manifest : List String
  pub quota : Option Limits
  pub lease_s : ℕ
  pub turn_deadline : ℕ
  pub owner : String

-- The arguments of a call of `turn_with_usage`.
pub record Call : Type 0 where
  pub session : String
  pub message : String
  pub tools : List String

-- What a claimed run comes to: its status, the calls it made, and the state.
abbrev pub Run : Type 0 → Type 0
Run W = String × List Call × Shared × W

abbrev pub tools_of : List String → Principal → List String
tools_of known p = if same_set p.tools ("*" ∷ []) then known else p.tools

-- The `except ProductError` clause.
unfoldable pub refused_as : ProductError → String
refused_as e =
    if includes ("token_quota_exceeded" ∷ "storage_quota_exceeded" ∷ "audit_quota_exceeded" ∷ [])
      e.code
    then "quota_exceeded"
    else "failed"

abbrev pub raised_as : Failing → String
raised_as timed_out = "deadline_exceeded"
raised_as _ = "failed"

-- The status of a turn and of the footprint after it, whose exception replaces the turn's.
unfoldable pub status_of : Turn → Option Footprint → String
status_of t (some (not_measured e)) = raised_as e
status_of (raises e) _ = raised_as e
status_of (replied reply usage) _ = "ok"

abbrev pub sizes_of : Option Footprint → Option (ℕ × ℕ)
sizes_of (some (measured storage audit)) = some (storage, audit)
sizes_of _ = none

-- `set.discard`
unfoldable pub discard : String → List String → List String
discard key [] = []
discard key (k ∷ ks) = let rest = discard key ks in if str_eq k key then rest else k ∷ rest

module _ {W : Type 0} (host : Host W) (config : Config) where
  -- The release of a turn's lease, if it has one.
  unfoldable pub release :
      Option (Limits × String)
      → String
      → Option (ℕ × ℕ)
      → Option Footprint
      → Shared
      → W
      → Shared × W
  release none session usage f s w = (s, w)
  release (some (limits, id)) session usage f s w =
      let (tokens, w1) = host.telemetry w in
      let (now, w2) = host.time w1 in
      let settlement = settlement_of session (or_telemetry usage tokens) (sizes_of f) in
      (record s { db = (settle_turn host.digest limits id settlement now s.db).1 }, w2)

  -- `footprint`, where resources are limited.
  abbrev pub footprint_for : Bool → String → W → Option Footprint × W
  footprint_for false session w = (none, w)
  footprint_for true session w = let (f, w') = host.footprint session w in (some f, w')

  -- The turn, its footprint, and the release of its lease.
  unfoldable pub run_turn : Option (Limits × String) → Entry → List String → ℕ → Shared → W → Run W
  unfolding release status_of
  run_turn leased e tools deadline s w =
      let (t, s1, w1) = host.turn e.internal_session e.message tools deadline s w in
      let (f, w2) = footprint_for (has_resources config.quota) e.internal_session w1 in
      let (s2, w3) = release leased e.internal_session (usage_of_turn t) f s1 w2 in
      let call : Call = record {
        session = e.internal_session;
        message = e.message;
        tools = tools;
      } in
      (status_of t f, call ∷ [], s2, w3)

  abbrev pub after_lease :
      Limits → String → Entry → List String → ℕ → Shared → W → Reply String × Db → Run W
  after_lease limits id e tools deadline s w (err refusal, db) =
      (refused_as refusal, [], record s { db = db }, w)
  after_lease limits id e tools deadline s w (ok _, db) =
      run_turn (some (limits, id)) e tools deadline (record s { db = db }) w

  unfoldable pub run_leased :
      Option Limits → Principal → Entry → List String → ℕ → Shared → W → Run W
  unfolding run_turn refused_as
  run_leased none p e tools deadline s w = run_turn none e tools deadline s w
  run_leased (some limits) p e tools deadline s w =
      let (now, w1) = host.time w in
      let (id, w2) = host.uuid w1 in
      after_lease limits id e tools deadline s w2
        (acquire_turn host.digest limits id p.tenant_id (some e.internal_session) now s.db)

  -- The checks of the entry's policy.
  unfoldable pub run_granted : Option Principal → Entry → ℕ → Shared → W → Run W
  unfolding run_leased
  run_granted none e deadline s w = ("policy_revoked", [], s, w)
  run_granted (some p) e deadline s w =
      let tools = tools_of config.manifest p in
      if includes p.scopes "schedules:write"
      then if all (includes config.manifest) tools
        then run_leased config.quota p e tools deadline s w
        else ("policy_invalid", [], s, w)
      else ("policy_revoked", [], s, w)

  -- The entry as it is read again under the session's lock.
  unfoldable pub run_current : Option Entry → ℕ → Shared → W → Run W
  unfolding run_granted
  run_current none deadline s w = ("failed", [], s, w)
  run_current (some e) deadline s w =
      let (now, w') = host.time w in
      run_granted (policy host.digest e.tenant_sha256 e.principal now config.credentials) e deadline
        s w'

  unfoldable pub run_locked : String → String → ℕ → Bool × Shared × W → Run W
  unfolding run_current
  run_locked key session deadline (false, s, w) = ("deadline_exceeded", [], s, w)
  run_locked key session deadline (true, s, w) =
      let (status, calls, s', w') = run_current (get key s.entries) deadline s w in
      (status, calls, s', host.unhold session w')

  -- The `finally` of a claimed run.
  unfoldable pub complete : String → Run W → List Call × Shared × W
  complete key (status, calls, s, w) =
      let (when, w') = host.time w in
      (calls, record s { entries = (complete_claim key config.owner when status s.entries).1 }, w')

  unfoldable pub after_claim :
      String → Option Entry × Dict Entry → Shared → W → List Call × Shared × W
  unfolding run_locked complete
  after_claim key (none, entries) s w = ([], record s { entries = entries }, w)
  after_claim key (some e, entries) s w =
      let (now, w1) = host.monotonic w in
      let deadline = now + config.turn_deadline in
      complete key (
        run_locked key e.internal_session deadline
          (host.hold e.internal_session deadline (record s { entries = entries }) w1))

  -- One round of the loop.
  unfoldable pub tick_key : ℕ → String → Shared → W → List Call × Shared × W
  unfolding after_claim
  tick_key now key s w =
      after_claim key (claim_due key now config.owner config.lease_s s.entries) s w

  -- `_running`, which a round adds its key to and takes it from again; a key that it has is skipped.
  unfoldable pub tick_keys :
      ℕ → List String → List String → Shared → W → List Call × List String × Shared × W
  unfolding tick_key
  tick_keys now running [] s w = ([], running, s, w)
  tick_keys now running (key ∷ keys) s w =
      let skipped = tick_keys now running keys s w in
      let (calls, s', w') = tick_key now key s w in
      let (calls', running', s2, w2) = tick_keys now (discard key (key ∷ running)) keys s' w' in
      if includes running key then skipped else (calls ++ calls', running', s2, w2)

  -- `self.store.entries()` is the snapshot that the loop goes through.
  unfoldable pub tick : List String → Shared → W → List Call × List String × Shared × W
  unfolding tick_keys
  tick running s w =
      let (now, w') = host.time w in
      tick_keys now running (map (λ (p : String × Entry). p.0) s.entries) s w'
