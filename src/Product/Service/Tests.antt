-- ===== src/Product/Service/Tests.antt =====
-- A service over a world that is a clock, in which each turn echoes its message in 7 µs.
use sigil_pi.Prelude.{
  ℕ, ◌+◌, ◌≡◌, ◌⊎◌, refl, arith, String, Bool, true, false, none, some, List, [], ◌∷◌,
}
use sigil_pi.Prelude.Dict.{get, put}
use sigil_pi.Prelude.Table.{find_where, count_where, delete_where}
use sigil_pi.Agent.Bytes.{bytes}
use sigil_pi.Agent.Json.{end, field, object, string, pos}
use sigil_pi.Product.Errors.{ok}
use sigil_pi.Product.Auth.{Principal, authenticate}
use sigil_pi.Product.Quota.{admit_request, counted}
use sigil_pi.Product.Quota.Turns.{acquire_turn, refusal_for}
use sigil_pi.Product.Schedules.{whole}
use sigil_pi.Product.Metrics.{no_metrics}
use sigil_pi.Product.Service.{
  done, fault, internal, replied, measured, value, Host, Config, State, chat_reply,
}
use sigil_pi.Product.Service.Paths.{route_of}
use sigil_pi.Product.Service.Chat.{chat_turn}
use sigil_pi.Product.Service.Dispatch.{Request, dispatch}
use sigil_pi.Product.Service.Release.{Keeps, acquired_at, chat_turn-Keeps}
use sigil_pi.Product.Service.Scopes.{Reads, dispatch-IsAuthorized, IsRefused, MayUse, caller}

abbrev host : Host ℕ
host = record {
  monotonic = λ w. (w, w + 1);
  time = λ w. (w, w + 1);
  uuid = λ w. ("id", w);
  database_up = λ w. (true, w);
  hold = λ session deadline w. (true, w);
  unhold = λ session w. w;
  turn = λ session message tools deadline w. (replied (bytes message) (3, 4), w + 7);
  footprint = λ session w. (measured 10 20, w);
  telemetry = λ w. (record { forge_queue_wait = 0; tool_calls = 1; retries = 0; tokens = none }, w);
  probe = λ w. ([], w);
  operational_metrics = λ m w. (fault internal, w);
  render_prometheus = λ j v. v;
  export = λ p session w. (fault internal, w);
  delete = λ p session entries db w. (fault internal, entries, db, w);
  digest = λ s. s;
  encoded_len = λ s. 5;
  float_int = λ s. whole (pos 0);
  loads = λ body. value (object (field "message" (string "hi") end));
  unquote = λ s. s;
}

abbrev caller_of : List String → Principal
caller_of scopes = record { principal_id = "ada"; tenant_id = "t"; scopes = scopes; tools = [] }

abbrev config : Config
config = record {
  credentials =
      record { digest = "key"; principal = caller_of ("chat" ∷ []); validity = none } ∷ [];
  version = "1";
  manifest = "read" ∷ [];
  quota = some (record {
    requests_per_minute = 10;
    max_concurrent_turns = 2;
    turn_lease_s = 300;
    resources = none;
  });
  requests_per_minute = 10;
  max_concurrent_turns = 2;
  max_schedules = none;
  has_data_manager = false;
  turn_deadline = 300000000;
}

abbrev start : State ℕ
start = record {
  db = record { request_windows = []; turn_leases = []; token_windows = []; session_usage = [] };
  rate = [];
  emergency_rate = [];
  semaphores = [];
  schedules = [];
  metrics = no_metrics;
  draining = false;
  active_requests = 0;
  world = 0;
}

abbrev asking : String → String → Request
asking method path = record {
  method = method;
  path = path;
  authorization = some "Bearer key";
  request_id = none;
  body = [];
}

chat_answer :
    (chat_turn host config (caller_of []) "s" "hi" [] start).0
    ≡ done (200, chat_reply "s" (bytes "hi") (3, 4))
unfolding chat_turn acquire_turn count_where delete_where refusal_for
chat_answer = refl

chat_turn-Keeps_example :
    Keeps host config
      (acquired_at host config start)
      start
      (chat_turn host config (caller_of []) "s" "hi" [] start).2
unfolding find_where get
chat_turn-Keeps_example =
    chat_turn-Keeps host config (caller_of []) "s" "hi" [] start (λ t. omega arith) refl

abbrev any_id : String → Bool
any_id s = true

-- The same service over the number of sessions that are stored; a deletion removes them all.
abbrev stored : Host ℕ
stored = record host {
  monotonic = λ w. (5, w);
  time = λ w. (5, w);
  delete = λ p session entries db w. (fault internal, [], db, 0);
}

stored-Reads : Reads stored config (λ w. w)
stored-Reads = record {
  monotonic = λ w. refl;
  time = λ w. refl;
  uuid = λ w. refl;
  database_up = λ w. refl;
}

abbrev two_stored : State ℕ
two_stored = record start { world = 2 }

dispatch-IsAuthorized_example :
    ((p : Principal) × (caller stored config (asking "DELETE" "/v1/sessions/a") two_stored ≡ ok p)
      × MayUse p (route_of "DELETE" "/v1/sessions/a"))
    ⊎ IsRefused stored config
        (λ w. w)
        two_stored
        (dispatch stored config any_id (asking "DELETE" "/v1/sessions/a") two_stored)
dispatch-IsAuthorized_example =
    dispatch-IsAuthorized stored config (λ w. w) stored-Reads any_id
      (asking "DELETE" "/v1/sessions/a") two_stored

-- The request of the theorem above is refused, since the principal may only chat.
refused_delete :
    ((dispatch stored config any_id (asking "DELETE" "/v1/sessions/a") two_stored).0.error_class
      ≡ some "permission_denied")
    × ((dispatch stored config any_id (asking "DELETE" "/v1/sessions/a") two_stored).1.world ≡ 2)
unfolding dispatch authenticate admit_request get put counted
refused_delete = (refl, refl)
