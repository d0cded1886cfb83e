-- ===== src/Product/Service/Dispatch.antt =====
-- `ProductService.dispatch`: authentication, admission, the routes, and what is answered, counted
-- and logged.
use Prim.Native.String.{compare}
use Prim.Native.Nat.{Ordering}
use sigil_pi.Prelude.{
  ℕ, String, Bool, true, false, ◌||◌, Option, none, some, List, [], ◌∷◌, all, str_eq, if◌then◌else◌,
  ◌==◌,
}
use sigil_pi.Prelude.Dict.{Dict, get, put}
use sigil_pi.Agent.Json.{Json}
use sigil_pi.Product.Errors.{Reply, ok, err}
use sigil_pi.Product.Auth.{Principal, includes, authenticate}
use sigil_pi.Product.Quota.{Limits, admit_request}
use sigil_pi.Product.RateLimit.{admit}
use sigil_pi.Product.Requests.{bad_request, session_re}
use sigil_pi.Product.Schedules.{Entry, Failure, overflow, put_schedule, remove_schedule}
use sigil_pi.Product.Schedules as Schedules
use sigil_pi.Product.Metrics as Metrics
use sigil_pi.Product.Service.{
  Fault, product, internal, Try, done, fault, Host, Config, State, product_error, Payload, health,
  created, removed, readiness, version, metrics_text, metrics_report, exported, deleted, schedules,
  failure, Shown, Timing, readiness_of, Readiness,
}
use sigil_pi.Product.Service.Paths.{
  Route, route_of, route_name, scope_of, encoded_session, strip_slashes,
}
use sigil_pi.Product.Service.Chat.{Handled, json_object, chat}

pub record Request : Type 0 where
  pub method : String
  pub path : String
  pub authorization : Option String
  pub request_id : Option String
  pub body : List ℕ

-- What is answered, with what the log and the counters say of it.
pub record Response : Type 0 where
  pub status : ℕ
  pub payload : Payload
  pub request_id : String
  pub route : String
  pub error_class : Option String
  pub principal : Option Principal
  pub retry_after : Option ℕ
  pub www_authenticate : Bool
  pub timing : Option Timing

-- `_require`
abbrev pub require : Principal → String → Option Fault
require p scope =
    if includes p.scopes scope
    then none
    else some (product_error 403 "permission_denied" "credential lacks required permission" none)

abbrev pub shown_of : Entry → Shown
shown_of e = record {
  name = e.name;
  session = e.session;
  message = e.message;
  every_ms = e.every_ms;
  last_run = e.last_run;
  last_status = e.last_status;
}

-- `sorted(…, key=lambda entry: entry["name"])`, by insertion.
abbrev pub insert_by_name : Shown → List Shown → List Shown
insert_by_name x [] = x ∷ []
insert_by_name x (y ∷ ys) = elim (compare x.name y.name) [
  | Ordering.gt ↦ y ∷ insert_by_name x ys
  | _ ↦ x ∷ y ∷ ys
]

-- `for_tenant`
unfoldable pub for_tenant : String → Dict Entry → List Shown
for_tenant tenant [] = []
for_tenant tenant ((k, e) ∷ entries) =
    let rest = for_tenant tenant entries in
    if str_eq e.tenant_sha256 tenant then insert_by_name (shown_of e) rest else rest

abbrev unavailable : String → String → Fault
unavailable code message = product_error 503 code message none

abbrev no_schedules : Fault
no_schedules = unavailable "schedules_unavailable" "schedule service is not configured"

abbrev no_data : Fault
no_data = unavailable "data_lifecycle_unavailable" "session data service is not configured"

abbrev pub fault_of : Failure → Fault
fault_of (Schedules.product e) = product e
fault_of overflow = internal

abbrev pub schedule_key : String × Json → Bool
schedule_key (k, v) =
    str_eq k "name" || str_eq k "session" || str_eq k "message" || str_eq k "every_ms"

-- The arguments of `put`, if the object has exactly its four keys.
abbrev pub four_keys : Dict Json → Option (Json × Json × Json × Json)
four_keys obj =
    if all schedule_key obj
    then elim (get "name" obj) [
      | none ↦ none
      | some n ↦ elim (get "session" obj) [
        | none ↦ none
        | some s ↦ elim (get "message" obj) [
          | none ↦ none
          | some m ↦ elim (get "every_ms" obj) [ none ↦ none | some e ↦ some (n, s, m, e) ]
        ]
      ]
    ]
    else none

-- `payload` of a handler that returns its value with status 200.
abbrev pub answer_with : (Json → Payload) → Try Json → Try (ℕ × Payload)
answer_with f (done j) = done (200, f j)
answer_with f (fault e) = fault e

module _ {W : Type 0} (host : Host W) (config : Config) where
  unfoldable pub create : Principal → ℕ → List ℕ → State W → Handled W
  create p max body s = elim (json_object (host.loads body)) [
    | fault f ↦ (fault f, none, s)
    | done obj ↦ elim (four_keys obj) [
      | none ↦ (
        fault (
            product (
              bad_request "invalid_request"
                "expected exactly name, session, message, and every_ms")),
        none,
        s,
      )
      | some (name, session, message, every_ms) ↦
          let (now, w) = host.time s.world in
          let (refused, entries) =
            put_schedule host.digest host.encoded_len host.float_int max p.tenant_id p.principal_id
              name session message every_ms now s.schedules in
          (
            elim refused [ none ↦ done (201, created) | some e ↦ fault (fault_of e) ],
            none,
            record s { schedules = entries; world = w },
          )
    ]
  ]

  unfoldable pub remove : Principal → String → State W → Handled W
  remove p rest s =
      let name = host.unquote rest in
      let (found, entries) = remove_schedule host.digest p.tenant_id name s.schedules in
      if session_re name
      then if found
        then (done (200, removed), none, record s { schedules = entries })
        else (fault (product_error 404 "schedule_not_found" "schedule not found" none), none, s)
      else (fault (product (bad_request "invalid_schedule_name" "invalid schedule name")), none, s)

  -- `GET /v1/ready`; the flag is set where the quota database could not be used.
  unfoldable pub ready : Bool → State W → Handled W
  ready admission_failed s =
      let (dependencies, w) = host.probe s.world in
      let r = readiness_of s.draining dependencies in
      let seen : Readiness =
        if admission_failed
        then record r { ready = false; dependencies = put "quota_store" false r.dependencies }
        else r in
      (done (if seen.ready then 200 else 503, readiness seen), none, record s { world = w })

  -- The branch of a route, after its `_require`.
  unfoldable pub handle : Route → Bool → Principal → List ℕ → State W → Handled W
  unfolding chat create remove ready for_tenant
  handle Route.chat flag p body s = chat host config p body s
  handle Route.health flag p body s = (done (200, health), none, s)
  handle Route.ready flag p body s = ready flag s
  handle Route.version flag p body s = (done (200, version config.version), none, s)
  handle Route.metrics flag p body s =
      let (report, w) = host.operational_metrics s.metrics s.world in
      (answer_with metrics_report report, none, record s { world = w })
  handle Route.prometheus flag p body s =
      let (report, w) = host.operational_metrics s.metrics s.world in
      (
        answer_with (λ j. metrics_text (host.render_prometheus j config.version)) report,
        none,
        record s { world = w },
      )
  handle Route.list_schedules flag p body s = elim config.max_schedules [
    | none ↦ (fault no_schedules, none, s)
    | some max ↦ (done (200, schedules (for_tenant (host.digest p.tenant_id) s.schedules)), none, s)
  ]
  handle Route.create_schedule flag p body s = elim config.max_schedules [
    | none ↦ (fault no_schedules, none, s)
    | some max ↦ create p max body s
  ]
  handle (Route.delete_schedule rest) flag p body s = elim config.max_schedules [
    | none ↦ (fault no_schedules, none, s)
    | some max ↦ remove p rest s
  ]
  handle (Route.export_session rest) flag p body s =
      let session = host.unquote (strip_slashes (encoded_session rest)) in
      let (data_of, w) = host.export p session s.world in
      if config.has_data_manager
      then (answer_with exported data_of, none, record s { world = w })
      else (fault no_data, none, s)
  handle (Route.delete_session rest) flag p body s =
      let (gone, entries, db, w) = host.delete p (host.unquote rest) s.schedules s.db s.world in
      if config.has_data_manager
      then (answer_with deleted gone, none, record s { schedules = entries; db = db; world = w })
      else (fault no_data, none, s)
  handle Route.unknown flag p body s =
      (fault (product_error 404 "not_found" "route not found" none), none, s)

  -- A route asks for its permission first.
  unfoldable pub serve : Route → Bool → Principal → List ℕ → State W → Handled W
  unfolding handle
  serve route flag p body s = elim (scope_of route) [
    | none ↦ handle route flag p body s
    | some scope ↦ elim (require p scope) [
      | some f ↦ (fault f, none, s)
      | none ↦ handle route flag p body s
    ]
  ]

  -- Admission: whether the request is admitted and, if not, when to come back; and whether the
  -- quota database failed.
  abbrev pub Admission : Type 0
  Admission = Try ((Bool × ℕ) × Bool) × State W

  -- The database cannot be used: only the readiness probe is served, within a local rate.
  abbrev pub emergency_ready : Limits → Principal → State W → Option Fault → Admission
  emergency_ready limits p s (some f) = (fault f, s)
  emergency_ready limits p s none =
      let (now, w) = host.monotonic s.world in
      let (answer, rate) = admit limits.requests_per_minute p.tenant_id now s.emergency_rate in
      (done (answer, true), record s { emergency_rate = rate; world = w })

  unfoldable pub emergency : Limits → Route → Principal → State W → Admission
  emergency limits Route.ready p s = emergency_ready limits p s (require p "ops:read")
  emergency limits _ p s = (fault internal, s)

  unfoldable pub admission_for : Option Limits → Route → Principal → State W → Admission
  unfolding emergency
  admission_for none route p s =
      let (now, w) = host.monotonic s.world in
      let (answer, rate) = admit config.requests_per_minute p.tenant_id now s.rate in
      (done (answer, false), record s { rate = rate; world = w })
  admission_for (some limits) route p s =
      let (up, w) = host.database_up s.world in
      let (now, w') = host.time w in
      let (answer, db) = admit_request host.digest limits p.tenant_id now s.db in
      if up
      then (done (answer, false), record s { db = db; world = w' })
      else emergency limits route p (record s { world = w })

  unfoldable pub admission : Route → Principal → State W → Admission
  unfolding admission_for
  admission route p s = admission_for config.quota route p s

  unfoldable pub after_admission : Route → Principal → List ℕ → Admission → String × Handled W
  unfolding serve
  after_admission route p body (fault f, s) = ("unknown", (fault f, none, s))
  after_admission route p body (done ((true, retry_after), flag), s) =
      (route_name route, serve route flag p body s)
  after_admission route p body (done ((false, retry_after), flag), s) = (
    "unknown",
    (
      fault (product_error 429 "rate_limited" "tenant request rate exceeded" (some retry_after)),
      none,
      s,
    ),
  )

  -- The `except` clauses: no exception text is answered.
  abbrev pub respond :
      String → Option Principal → String × Try (ℕ × Payload) × Option Timing → Response
  respond id principal (route, done (status, payload), timing) = record {
    status = status;
    payload = payload;
    request_id = id;
    route = route;
    error_class = none;
    principal = principal;
    retry_after = none;
    www_authenticate = false;
    timing = timing;
  }
  respond id principal (route, fault (product e), timing) = record {
    status = e.status;
    payload = failure e.code e.message;
    request_id = id;
    route = route;
    error_class = some e.code;
    principal = principal;
    retry_after = e.retry_after;
    www_authenticate = e.status == 401;
    timing = timing;
  }
  respond id principal (route, fault internal, timing) = record {
    status = 500;
    payload = failure "internal_error" "internal service error";
    request_id = id;
    route = route;
    error_class = some "internal_error";
    principal = principal;
    retry_after = none;
    www_authenticate = false;
    timing = timing;
  }

  -- The `finally`: the answer is counted.
  abbrev pub counted : String → Response × State W → Response × State W
  counted method (r, s) =
      (r, record s { metrics = Metrics.request method r.route r.status r.error_class s.metrics })

  unfoldable pub answered : Request → String → Reply Principal → State W → Response × State W
  unfolding after_admission admission route_of
  answered r id (err e) s = (respond id none ("unknown", fault (product e), none), s)
  answered r id (ok p) s =
      let route = route_of r.method r.path in
      let (name, (outcome, timing, s')) = after_admission route p r.body (admission route p s) in
      (respond id (some p) (name, outcome, timing), s')

  -- `_request_id`, with a fresh `uuid4`; `valid_id` is `REQUEST_ID_RE.fullmatch`.
  abbrev pub request_id_of : (String → Bool) → Request → String → String
  request_id_of valid_id r fresh = elim r.request_id [
    | none ↦ fresh
    | some given ↦ if valid_id given then given else fresh
  ]

  unfoldable pub dispatch : (String → Bool) → Request → State W → Response × State W
  unfolding answered authenticate
  dispatch valid_id r s =
      let (fresh, w) = host.uuid s.world in
      let (now, w') = host.time w in
      let id = request_id_of valid_id r fresh in
      counted r.method (
        answered r id
          (authenticate host.digest host.encoded_len config.credentials r.authorization now)
          (record s { world = w' }))
