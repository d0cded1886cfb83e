-- ===== src/Product/Service/Paths.antt =====
-- The routes of `ProductService.dispatch`, their names and their scopes.
use sigil_pi.Prelude.{
  after_prefix, ℕ, zero, suc, ◌-◌, String, Bool, ◌&&◌, ◌||◌, Option, none, some, str_eq,
  if◌then◌else◌,
}

-- A route, with what follows the fixed part of its path.
pub data Route : Type 0 where
  chat health ready version metrics prometheus list_schedules create_schedule unknown : Route
  delete_schedule export_session delete_session : String → Route

abbrev pub ends_with : String → String → Bool
ends_with suffix String.[] = str_eq suffix ""
ends_with suffix (String.◌∷◌ c s) = str_eq suffix (String.◌∷◌ c s) || ends_with suffix s

abbrev pub text_len : String → ℕ
text_len String.[] = 0
text_len (String.◌∷◌ c s) = suc (text_len s)

abbrev pub first_chars : ℕ → String → String
first_chars zero s = ""
first_chars (suc n) String.[] = ""
first_chars (suc n) (String.◌∷◌ c s) = String.◌∷◌ c (first_chars n s)

-- `path[len("/v1/sessions/"):-len("/export")]`
abbrev pub encoded_session : String → String
encoded_session rest = first_chars (text_len rest - 7) rest

-- `s.rstrip("/")`
abbrev pub strip_slashes : String → String
strip_slashes String.[] = ""
strip_slashes (String.◌∷◌ c s) =
    let rest = strip_slashes s in
    if str_eq rest "" && str_eq (String.◌∷◌ c "") "/" then "" else String.◌∷◌ c rest

abbrev pub session_route : String → String → Route
session_route method path = elim (after_prefix "/v1/sessions/" path) [
  | none ↦ unknown
  | some rest ↦
      if str_eq method "GET" && ends_with "/export" path
      then export_session rest
      else if str_eq method "DELETE"
      then delete_session rest
      else unknown
]

abbrev pub schedule_route : String → String → Route
schedule_route method path = elim (after_prefix "/v1/schedules/" path) [
  | none ↦ session_route method path
  | some rest ↦ if str_eq method "DELETE" then delete_schedule rest else session_route method path
]

-- The chain of conditions, in order.
unfoldable pub route_of : String → String → Route
route_of method path =
    let get_ = str_eq method "GET" in
    let post = str_eq method "POST" in
    if post && str_eq path "/v1/chat"
    then chat
    else if get_ && str_eq path "/v1/health"
    then health
    else if get_ && str_eq path "/v1/ready"
    then ready
    else if get_ && str_eq path "/v1/version"
    then version
    else if get_ && str_eq path "/v1/metrics"
    then metrics
    else if get_ && str_eq path "/v1/metrics/prometheus"
    then prometheus
    else if get_ && str_eq path "/v1/schedules"
    then list_schedules
    else if post && str_eq path "/v1/schedules"
    then create_schedule
    else schedule_route method path

-- The label of the metrics and of the log.
abbrev pub route_name : Route → String
route_name chat = "/v1/chat"
route_name health = "/v1/health"
route_name ready = "/v1/ready"
route_name version = "/v1/version"
route_name metrics = "/v1/metrics"
route_name prometheus = "/v1/metrics/prometheus"
route_name list_schedules = "/v1/schedules"
route_name create_schedule = "/v1/schedules"
route_name (delete_schedule rest) = "/v1/schedules/{name}"
route_name (export_session rest) = "/v1/sessions/{session}/export"
route_name (delete_session rest) = "/v1/sessions/{session}"
route_name unknown = "unknown"

-- The permission that `_require` asks for.
abbrev pub scope_of : Route → Option String
scope_of chat = some "chat"
scope_of health = some "ops:read"
scope_of ready = some "ops:read"
scope_of version = some "ops:read"
scope_of metrics = some "ops:read"
scope_of prometheus = some "ops:read"
scope_of list_schedules = some "schedules:read"
scope_of create_schedule = some "schedules:write"
scope_of (delete_schedule rest) = some "schedules:write"
scope_of (export_session rest) = some "sessions:read"
scope_of (delete_session rest) = some "sessions:delete"
scope_of unknown = none
