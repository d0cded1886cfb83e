-- ===== src/Product/Service.antt =====
-- `ProductService` of product_service.py: its state, what it answers, and its lifecycle. One request
-- is served at a time; agent, session files, locks and clocks act on a world `W`. Times are in
-- microseconds.
pub mod Paths
pub mod Chat
pub mod Dispatch
pub mod Capacity
pub mod Release
pub mod Scopes
mod Tests
use Prim.Native.Char.{code}
use sigil_pi.Prelude.{
  ℕ, zero, suc, ◌+◌, ◌-◌, String, Bool, true, false, not, ◌&&◌, ◌||◌, Option, none, some, List, [],
  ◌∷◌, any, all, leb, ◌==◌, str_eq, if◌then◌else◌,
}
use sigil_pi.Prelude.Dict.{Dict, get, put}
use sigil_pi.Agent.Json.{Json}
use sigil_pi.Product.Errors.{ProductError, Reply, ok, err}
use sigil_pi.Product.Auth.{Principal, Credential, includes, same_set}
use sigil_pi.Product.Quota.{Db, Limits}
use sigil_pi.Product.Schedules.{Entry, Rounded}
use sigil_pi.Product.Metrics.{Metrics}

-- Why a request fails: a `ProductError`, or any other exception.
pub data Fault : Type 0 where
  product : ProductError → Fault
  internal : Fault

pub data Try {ℓ} (A : Type ℓ) : Type ℓ where
  done : A → Try A
  fault : Fault → Try A

-- What a turn's work raises: a `TimeoutError`, a `RuntimeError`, or another exception.
pub data Failing : Type 0 where
  timed_out turn_failed turn_crashed : Failing

-- How `turn_with_usage` ends: with the reply and its token counts, or with an exception.
pub data Turn : Type 0 where
  replied : List ℕ → ℕ × ℕ → Turn
  raises : Failing → Turn

-- `footprint`: the bytes of storage and of audit, or an exception.
pub data Footprint : Type 0 where
  measured : ℕ → ℕ → Footprint
  not_measured : Failing → Footprint

-- `turn_telemetry`, the numbers not below 0.
pub record Telemetry : Type 0 where
  pub forge_queue_wait : ℕ
  pub tool_calls : ℕ
  pub retries : ℕ
  pub tokens : Option (ℕ × ℕ)

-- `json.loads(body or b"{}")`: a value, a decoding error, or another exception.
pub data Loaded : Type 0 where
  value : Json → Loaded
  undecodable unreadable : Loaded

pub record Host (W : Type 0) : Type 0 where
  pub monotonic : W → ℕ × W
  pub time : W → ℕ × W
  pub uuid : W → String × W
  -- whether the quota database can be used at admission
  pub database_up : W → Bool × W
  -- `session_locks.hold`: whether it got the lock in time, and its end
  pub hold : String → ℕ → W → Bool × W
  pub unhold : String → W → W
  pub turn : String → String → List String → ℕ → W → Turn × W
  pub footprint : String → W → Footprint × W
  pub telemetry : W → Telemetry × W
  -- `_probe_dependency` of each dependency that is there, by name
  pub probe : W → Dict Bool × W
  pub operational_metrics : Metrics → W → Try Json × W
  pub render_prometheus : Json → String → String
  pub export : Principal → String → W → Try Json × W
  -- `data_manager.delete`: its answer, and what it leaves of the schedules and of the quota database
  pub delete : Principal → String → Dict Entry → Db → W → Try Json × Dict Entry × Db × W
  -- `sha256(…).hexdigest()`, `len(s.encode())`, `int` on a float, `json.loads`, `unquote`
  pub digest : String → String
  pub encoded_len : String → ℕ
  pub float_int : String → Rounded
  pub loads : List ℕ → Loaded
  pub unquote : String → String

-- The arguments of the constructor.
pub record Config : Type 0 where
  pub credentials : List Credential
  pub version : String
  pub manifest : List String
  -- the durable quotas, if there are any
  pub quota : Option Limits
  pub requests_per_minute : ℕ
  pub max_concurrent_turns : ℕ
  pub max_schedules : Option ℕ
  pub has_data_manager : Bool
  pub turn_deadline : ℕ

pub record State (W : Type 0) : Type 0 where
  pub db : Db
  pub rate : Dict (List ℕ)
  pub emergency_rate : Dict (List ℕ)
  pub semaphores : Dict ℕ
  pub schedules : Dict Entry
  pub metrics : Metrics
  pub draining : Bool
  pub active_requests : ℕ
  pub world : W

abbrev pub product_error : ℕ → String → String → Option ℕ → Fault
product_error status code message retry_after =
    product (record { status = status; code = code; message = message; retry_after = retry_after })

abbrev pub start_draining : {W : Type 0} → State W → State W
start_draining s = record s { draining = true }

-- `_turn_enter`: `none` where the service drains, which is an error.
unfoldable pub turn_enter : {W : Type 0} → State W → Option (State W)
turn_enter s =
    if s.draining then none else some (record s { active_requests = s.active_requests + 1 })

abbrev pub turn_leave : {W : Type 0} → State W → State W
turn_leave s = record s { active_requests = s.active_requests - 1 }

-- `_allowed_tools`
unfoldable pub allowed_tools : List String → Principal → Try (List String)
allowed_tools manifest p =
    if same_set p.tools ("*" ∷ [])
    then done manifest
    else if all (includes manifest) p.tools
    then done p.tools
    else fault (product_error 503 "configuration_error" "tool authorization is invalid" none)

-- `readiness_snapshot`
pub record Readiness : Type 0 where
  pub ready : Bool
  pub draining : Bool
  pub dependencies : Dict Bool

abbrev pub all_healthy : Dict Bool → Bool
all_healthy dependencies = all (λ (p : String × Bool). p.1) dependencies

abbrev pub readiness_of : Bool → Dict Bool → Readiness
readiness_of draining dependencies = record {
  ready = not draining && all_healthy dependencies;
  draining = draining;
  dependencies = dependencies;
}

-- A schedule as `for_tenant` shows it.
pub record Shown : Type 0 where
  pub name : String
  pub session : String
  pub message : String
  pub every_ms : ℕ
  pub last_run : Option ℕ
  pub last_status : Option String

pub data Payload : Type 0 where
  chat_reply : String → List ℕ → ℕ × ℕ → Payload
  health created removed : Payload
  readiness : Readiness → Payload
  version metrics_text : String → Payload
  metrics_report exported deleted : Json → Payload
  schedules : List Shown → Payload
  failure : String → String → Payload

-- The telemetry headers of a turn.
pub record Timing : Type 0 where
  pub queue_wait : ℕ
  pub tool_calls : ℕ
  pub retries : ℕ
