-- ===== src/Product/Scheduler/Tests.antt =====
-- A scheduler over a clock that counts readings: one entry is due, and its turn answers.
use sigil_pi.Prelude.{ℕ, ◌+◌, ◌≡◌, ◌⊎◌, refl, arith, true, none, some, [], ◌∷◌, Each}
use sigil_pi.Prelude.Dict.{get, put}
use sigil_pi.Product.Auth.{Principal, policy}
use sigil_pi.Product.Schedules.{Entry, claim_due, complete_claim}
use sigil_pi.Product.Service.{replied, measured}
use sigil_pi.Product.Scheduler.{Shared, Host, Config, tick, tick_key}
use sigil_pi.Product.Scheduler.Grants.{IsGranted, checked_at, held_for, tick_key-IsGranted}
use sigil_pi.Product.Scheduler.Completion.{NoneLeased, Others, IsIdle, leased_by, tick-IsIdle}

abbrev host : Host ℕ
host = record {
  monotonic = λ w. (w, w + 1);
  time = λ w. (w, w + 1);
  uuid = λ w. ("id", w);
  hold = λ session deadline s w. (true, s, w);
  unhold = λ session w. w;
  turn = λ session message tools deadline s w. (replied [] (1, 2), s, w + 5);
  footprint = λ session w. (measured 0 0, w);
  telemetry = λ w. (none, w);
  digest = λ s. s;
}

abbrev ada : Principal
ada = record {
  principal_id = "ada";
  tenant_id = "t";
  scopes = "schedules:write" ∷ [];
  tools = "*" ∷ [];
}

abbrev config : Config
config = record {
  credentials = record { digest = "key"; principal = ada; validity = none } ∷ [];
  manifest = "read" ∷ [];
  quota = none;
  lease_s = 60;
  turn_deadline = 300000000;
  owner = "1-a";
}

abbrev daily : Entry
daily = record {
  tenant_sha256 = "t";
  principal = "ada";
  name = "daily";
  session = "s";
  internal_session = "v1:t:s";
  message = "go";
  every_ms = 1000;
  last_run = none;
  last_status = none;
  created_unix = none;
  updated_unix = none;
  lease_owner = none;
  lease_until = none;
}

abbrev stores : Shared
stores = record {
  entries = ("t:daily", daily) ∷ [];
  db = record { request_windows = []; turn_leases = []; token_windows = []; session_usage = [] };
}

runs_daily :
    (tick host config [] stores 0).0
    ≡ record { session = "v1:t:s"; message = "go"; tools = "read" ∷ [] } ∷ []
unfolding tick claim_due get put policy
runs_daily = refl

marks_daily :
    get "t:daily" (tick host config [] stores 0).2.entries
    ≡ some (record daily { last_run = some 8; last_status = some "ok"; updated_unix = some 8 })
unfolding tick claim_due complete_claim get put policy
marks_daily = refl

tick_key-IsGranted_example :
    let (claimed, entries) = claim_due "t:daily" 0 "1-a" 60 stores.entries in
    ((claimed ≡ none) × ((tick_key host config 0 "t:daily" stores 1).0 ≡ []))
    ⊎ ((e : Entry) × (claimed ≡ some e)
        × Each
            (IsGranted host config
              (checked_at host config e entries stores 1)
              (get "t:daily" (held_for host config e entries stores 1).1.entries))
            (tick_key host config 0 "t:daily" stores 1).0)
tick_key-IsGranted_example = tick_key-IsGranted host config 0 "t:daily" stores 1

abbrev alone : Others host config
alone = record {
  hold = λ session deadline s w k h. h;
  turn = λ session message tools deadline s w k h. h;
}

none_leased : NoneLeased "1-a" stores.entries
unfolding leased_by get
none_leased k = ground arith

tick-IsIdle_example : IsIdle host config alone [] (tick host config [] stores 0)
tick-IsIdle_example = tick-IsIdle host config alone [] stores 0 none_leased
