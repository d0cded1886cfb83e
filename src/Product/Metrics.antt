-- ===== src/Product/Metrics.antt =====
-- `ServiceMetrics` of product_service.py, the lock taken as given. Durations are in microseconds,
-- and none is below 0. A `turn_finish` follows its `turn_start`.
pub mod Histogram
mod Tests
use sigil_pi.Prelude.{
  ℕ, suc, ◌+◌, ◌-◌, ◌*◌, max, String, Bool, true, false, ◌&&◌, Option, none, some, List, [], ◌∷◌,
  map, leb, ◌==◌, str_eq, if◌then◌else◌,
}
use sigil_pi.Prelude.Dict.{Dict, get, put}
use sigil_pi.Prelude.Table.{upsert}

-- `HISTOGRAM_BUCKETS_MS`
abbrev pub bounds_ms : List ℕ
bounds_ms =
    10 ∷ 25 ∷ 50 ∷ 100 ∷ 250 ∷ 500 ∷ 1000 ∷ 2000 ∷ 5000 ∷ 10000 ∷ 30000 ∷ 60000 ∷ 120000 ∷ []

abbrev pub bounds : List ℕ
bounds = map (λ b. b * 1000) bounds_ms

-- How often a method, route and status was answered.
pub record Count : Type 0 where
  pub method : String
  pub route : String
  pub status : ℕ
  pub count : ℕ

pub record Metrics : Type 0 where
  pub requests : List Count
  pub turns : ℕ
  pub turn_errors : ℕ
  pub turn_duration : ℕ
  pub queue_wait : ℕ
  pub queue_wait_max : ℕ
  pub turn_duration_buckets : List ℕ
  pub queue_wait_buckets : List ℕ
  pub input_tokens : ℕ
  pub output_tokens : ℕ
  pub tool_calls : ℕ
  pub retries : ℕ
  pub active_turns : ℕ
  pub error_classes : Dict ℕ

abbrev pub no_metrics : Metrics
no_metrics = record {
  requests = [];
  turns = 0;
  turn_errors = 0;
  turn_duration = 0;
  queue_wait = 0;
  queue_wait_max = 0;
  turn_duration_buckets = map (λ b. 0) bounds;
  queue_wait_buckets = map (λ b. 0) bounds;
  input_tokens = 0;
  output_tokens = 0;
  tool_calls = 0;
  retries = 0;
  active_turns = 0;
  error_classes = [];
}

abbrev pub key_is : String → String → ℕ → Count → Bool
key_is method route status c = str_eq c.method method && str_eq c.route route && c.status == status

abbrev pub tally : String → Dict ℕ → Dict ℕ
tally name counts = put name (elim (get name counts) [ none ↦ 1 | some n ↦ n + 1 ]) counts

unfoldable pub request : String → String → ℕ → Option String → Metrics → Metrics
request method route status error_class m = record m {
  requests =
      upsert (key_is method route status) (λ c. record c { count = c.count + 1 })
        (record { method = method; route = route; status = status; count = 1 }) m.requests;
  error_classes = elim error_class [
    | none ↦ m.error_classes
    | some name ↦ tally name m.error_classes
  ];
}

abbrev pub turn_start : Metrics → Metrics
turn_start m = record m { active_turns = m.active_turns + 1 }

-- The loop over the buckets: each bound that is not below the time counts it.
unfoldable pub observe : ℕ → List ℕ → List ℕ → List ℕ
observe time (b ∷ bs) (count ∷ counts) =
    (if leb time b then count + 1 else count) ∷ observe time bs counts
observe time _ _ = []

-- The arguments of `turn_finish`.
pub record Finish : Type 0 where
  pub duration : ℕ
  pub queue_wait : ℕ
  pub usage : Option (ℕ × ℕ)
  pub tool_calls : ℕ
  pub retries : ℕ
  pub error : Bool

abbrev pub tokens_in : Option (ℕ × ℕ) → ℕ
tokens_in none = 0
tokens_in (some (input, output)) = input

abbrev pub tokens_out : Option (ℕ × ℕ) → ℕ
tokens_out none = 0
tokens_out (some (input, output)) = output

unfoldable pub turn_finish : Finish → Metrics → Metrics
unfolding observe
turn_finish f m = record m {
  active_turns = m.active_turns - 1;
  turns = m.turns + 1;
  turn_duration = m.turn_duration + f.duration;
  queue_wait = m.queue_wait + f.queue_wait;
  queue_wait_max = max m.queue_wait_max f.queue_wait;
  turn_duration_buckets = observe f.duration bounds m.turn_duration_buckets;
  queue_wait_buckets = observe f.queue_wait bounds m.queue_wait_buckets;
  input_tokens = m.input_tokens + tokens_in f.usage;
  output_tokens = m.output_tokens + tokens_out f.usage;
  tool_calls = m.tool_calls + f.tool_calls;
  retries = m.retries + f.retries;
  turn_errors = if f.error then m.turn_errors + 1 else m.turn_errors;
}
