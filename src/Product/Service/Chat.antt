-- ===== src/Product/Service/Chat.antt =====
-- `POST /v1/chat` of `ProductService.dispatch`: a turn with its capacity, its lock and its metrics.
use sigil_pi.Prelude.{
  ℕ, ◌+◌, ◌-◌, String, Bool, true, false, Option, none, some, List, [], ◌∷◌, if◌then◌else◌,
}
use sigil_pi.Prelude.Dict.{Dict}
use sigil_pi.Agent.Json.{Json, Fields, end, field, object}
use sigil_pi.Product.Errors.{Reply, ok, err}
use sigil_pi.Product.Auth.{Principal}
use sigil_pi.Product.Quota.{Db, Limits}
use sigil_pi.Product.Quota.Turns.{Settlement, busy, acquire_turn, settle_turn}
use sigil_pi.Product.Requests.{chat_request, bad_request}
use sigil_pi.Product.Schedules.{internal_session_of}
use sigil_pi.Product.Concurrency.{take_turn, give_back}
use sigil_pi.Product.Metrics.{Finish, turn_start, turn_finish}
use sigil_pi.Product.Service.{
  Fault, product, internal, Try, done, fault, Failing, Turn, replied, raises, timed_out,
  turn_failed, turn_crashed, Footprint, measured, not_measured, Loaded, value, undecodable,
  unreadable, Host, Config, State, product_error, turn_enter, turn_leave, allowed_tools, Payload,
  chat_reply, Timing,
}

-- The capacity of a turn: a lease of the durable store, or a place at the tenant's semaphore.
pub data Capacity : Type 0 where
  lease : String → Capacity
  place : String → Capacity

abbrev pub to_dict : Fields → Dict Json
to_dict end = []
to_dict (field k v rest) = (k, v) ∷ to_dict rest

-- `_json_object`
abbrev pub json_object : Loaded → Try (Dict Json)
json_object (value (object fields)) = done (to_dict fields)
json_object (value _) =
    fault (product (bad_request "invalid_request" "request body must be a JSON object"))
json_object undecodable =
    fault (product (bad_request "invalid_json" "request body must be a JSON object"))
json_object unreadable = fault internal

-- The answer of a handler: what is answered or raised, the telemetry headers, and the state.
abbrev pub Handled : Type 0 → Type 0
Handled W = Try (ℕ × Payload) × Option Timing × State W

abbrev pub raised_as : Failing → Fault
raised_as timed_out = product_error 504 "turn_deadline_exceeded" "turn deadline exceeded" none
raised_as turn_failed = product_error 502 "agent_failure" "agent turn failed" none
raised_as turn_crashed = internal

abbrev pub result_of : Turn → Try (List ℕ × (ℕ × ℕ))
result_of (replied reply usage) = done (reply, usage)
result_of (raises e) = fault (raised_as e)

abbrev pub usage_of_turn : Turn → Option (ℕ × ℕ)
usage_of_turn (replied reply usage) = some usage
usage_of_turn _ = none

-- What the lock and the turn leave behind.
pub record Ran : Type 0 where
  pub result : Try (List ℕ × (ℕ × ℕ))
  pub usage : Option (ℕ × ℕ)
  pub footprint : Option (ℕ × ℕ)
  pub queue_wait : ℕ

-- The `finally` after the turn: an exception of `footprint` replaces the turn's.
abbrev pub after_footprint : Turn → ℕ → Footprint → Ran
after_footprint t queue_wait (measured storage audit) = record {
  result = result_of t;
  usage = usage_of_turn t;
  footprint = some (storage, audit);
  queue_wait = queue_wait;
}
after_footprint t queue_wait (not_measured e) = record {
  result = fault (raised_as e);
  usage = usage_of_turn t;
  footprint = none;
  queue_wait = queue_wait;
}

abbrev pub has_resources : Option Limits → Bool
has_resources none = false
has_resources (some limits) = elim limits.resources [ none ↦ false | some r ↦ true ]

-- What a release writes of a turn.
abbrev pub settlement_of : String → Option (ℕ × ℕ) → Option (ℕ × ℕ) → Settlement
settlement_of internal_session usage none = record {
  usage = usage;
  session_id = none;
  storage_bytes = none;
  audit_bytes = none;
  last_activity_unix = none;
}
settlement_of internal_session usage (some (storage, audit)) = record {
  usage = usage;
  session_id = some internal_session;
  storage_bytes = some storage;
  audit_bytes = some audit;
  last_activity_unix = none;
}

abbrev pub or_telemetry : Option (ℕ × ℕ) → Option (ℕ × ℕ) → Option (ℕ × ℕ)
or_telemetry none tokens = tokens
or_telemetry (some usage) tokens = some usage

module _ {W : Type 0} (host : Host W) (config : Config) where
  abbrev pub placed : String → State W → Option (Dict ℕ) → Try Capacity × State W
  placed tenant_id s none = (fault (product busy), s)
  placed tenant_id s (some left) = (done (place tenant_id), record s { semaphores = left })

  abbrev pub leased : String → W → State W → Reply String × Db → Try Capacity × State W
  leased id w s (err e, db) = (fault (product e), record s { db = db; world = w })
  leased id w s (ok _, db) = (done (lease id), record s { db = db; world = w })

  unfoldable pub acquire : Option Limits → Principal → String → State W → Try Capacity × State W
  acquire none p internal_session s =
      placed p.tenant_id s (take_turn config.max_concurrent_turns p.tenant_id s.semaphores)
  acquire (some limits) p internal_session s =
      let (now, w) = host.time s.world in
      let (id, w') = host.uuid w in
      leased id w' s
        (acquire_turn host.digest limits id p.tenant_id (some internal_session) now s.db)

  unfoldable pub release : Capacity → Settlement → State W → State W
  release (place tenant_id) settlement s = record s {
    semaphores = give_back config.max_concurrent_turns tenant_id s.semaphores;
  }
  release (lease id) settlement s = elim config.quota [
    | none ↦ s
    | some limits ↦
        let (now, w) = host.time s.world in
        record s { db = (settle_turn host.digest limits id settlement now s.db).1; world = w }
  ]

  -- The turn under its session's lock, and its footprint where resources are limited.
  unfoldable pub locked_turn : String → String → List String → ℕ → ℕ → Bool × W → Ran × W
  locked_turn internal_session message tools deadline queue_started (false, w) = (
    record { result = fault (raised_as timed_out); usage = none; footprint = none; queue_wait = 0 },
    w,
  )
  locked_turn internal_session message tools deadline queue_started (true, w) =
      let (locked_at, w1) = host.monotonic w in
      let (t, w2) = host.turn internal_session message tools deadline w1 in
      let wait = locked_at - queue_started in
      let (f, w3) = host.footprint internal_session w2 in
      if has_resources config.quota
      then (after_footprint t wait f, host.unhold internal_session w3)
      else (
        record {
          result = result_of t;
          usage = usage_of_turn t;
          footprint = none;
          queue_wait = wait;
        },
        host.unhold internal_session w2,
      )

  abbrev pub failed : Ran → Bool
  failed ran = elim ran.result [ done _ ↦ false | fault _ ↦ true ]

  -- The `finally` of a turn that was entered: its metrics, its headers, and `_turn_leave`.
  unfoldable pub finish_turn : ℕ → Ran → State W → (Ran × Timing) × State W
  finish_turn turn_started ran s =
      let (t, w) = host.telemetry s.world in
      let (now, w') = host.monotonic w in
      let usage = or_telemetry ran.usage t.tokens in
      let wait = ran.queue_wait + t.forge_queue_wait in
      let f : Finish = record {
        duration = now - turn_started;
        queue_wait = wait;
        usage = usage;
        tool_calls = t.tool_calls;
        retries = t.retries;
        error = failed ran;
      } in
      (
        (
          record ran { usage = usage },
          record { queue_wait = wait; tool_calls = t.tool_calls; retries = t.retries },
        ),
        turn_leave (record s { metrics = turn_finish f s.metrics; world = w' }),
      )

  abbrev pub answer_of : String → Ran → Try (ℕ × Payload)
  answer_of session ran = elim ran.result [
    | done (reply, usage) ↦ done (200, chat_reply session reply usage)
    | fault f ↦ fault f
  ]

  -- A turn that was entered.
  unfoldable pub run_turn : String → String → List String → ℕ → State W → (Ran × Timing) × State W
  unfolding locked_turn finish_turn
  run_turn internal_session message tools deadline s =
      let (turn_started, w) = host.monotonic s.world in
      let (queue_started, w1) = host.monotonic w in
      let held = host.hold internal_session deadline w1 in
      let (ran, w2) = locked_turn internal_session message tools deadline queue_started held in
      finish_turn turn_started ran (record s { metrics = turn_start s.metrics; world = w2 })

  -- The turn with its capacity, which is released on each way out: `none` where the service drains.
  unfoldable pub with_entered :
      String → String → String → List String → ℕ → Capacity → State W → Option (State W) → Handled W
  unfolding run_turn release
  with_entered session internal_session message tools deadline capacity s none = (
    fault (product_error 503 "service_draining" "service is draining" none),
    none,
    release capacity (settlement_of internal_session none none) s,
  )
  with_entered session internal_session message tools deadline capacity s (some entered) =
      let ((ran, timing), s') = run_turn internal_session message tools deadline entered in
      (
        answer_of session ran,
        some timing,
        release capacity (settlement_of internal_session ran.usage ran.footprint) s',
      )

  unfoldable pub with_capacity :
      String → String → String → List String → ℕ → Capacity → State W → Handled W
  unfolding with_entered turn_enter
  with_capacity session internal_session message tools deadline capacity s =
      with_entered session internal_session message tools deadline capacity s (turn_enter s)

  unfoldable pub after_acquire :
      String → String → String → List String → ℕ → Try Capacity × State W → Handled W
  unfolding with_capacity
  after_acquire session internal_session message tools deadline (fault f, s) = (fault f, none, s)
  after_acquire session internal_session message tools deadline (done capacity, s) =
      with_capacity session internal_session message tools deadline capacity s

  unfoldable pub chat_turn : Principal → String → String → List String → State W → Handled W
  unfolding after_acquire acquire
  chat_turn p session message tools s =
      let internal_session = internal_session_of host.digest p.tenant_id session in
      let (now, w) = host.monotonic s.world in
      after_acquire session internal_session message tools (now + config.turn_deadline)
        (acquire config.quota p internal_session (record s { world = w }))

  unfoldable pub chat : Principal → List ℕ → State W → Handled W
  unfolding chat_turn allowed_tools
  chat p body s = elim (json_object (host.loads body)) [
    | fault f ↦ (fault f, none, s)
    | done obj ↦ elim (chat_request host.encoded_len obj) [
      | err e ↦ (fault (product e), none, s)
      | ok (session, message) ↦ elim (allowed_tools config.manifest p) [
        | fault f ↦ (fault f, none, s)
        | done tools ↦ chat_turn p session message tools s
      ]
    ]
  ]
