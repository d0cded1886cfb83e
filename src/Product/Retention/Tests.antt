-- ===== src/Product/Retention/Tests.antt =====
-- A sweep over one session that has been inactive, with a clock at 100.
use sigil_pi.Prelude.{ℕ, ◌≡◌, refl, arith, String, true, false, none, some, [], ◌∷◌}
use sigil_pi.Prelude.Dict.{without}
use sigil_pi.Prelude.Table.{delete_where, count_where}
use sigil_pi.Agent.Json.{string}
use sigil_pi.Product.Quota.{Usage}
use sigil_pi.Product.Quota.Registry.{registered_session_inactive, remove_registered_session}
use sigil_pi.Product.Quota.Reconcile.{inactive_sessions}
use sigil_pi.Product.Schedules.{internal_active, remove_internal, remove_inactive}
use sigil_pi.Product.Data.{JsonFile, Stored, verify_quota_registry, delete_internal_files}
use sigil_pi.Product.Data.Attribution.{internals}
use sigil_pi.Product.Retention.{Host, Monitor, tick}
use sigil_pi.Product.Retention.Sweeps.{IsSound, tick-IsSound}

abbrev host : Host ℕ
host = record {
  time = λ w. (100, w);
  precheck = λ w. (true, w);
  hold = λ internal s w. (s, w);
  schedules_mtime = λ w. 0;
  digest = λ s. s;
}

abbrev monitor : Monitor
monitor = record {
  checks = 0;
  failures = 0;
  deleted_sessions = 0;
  deleted_schedules = 0;
  last_check = none;
  healthy = false;
}

abbrev usage : String → ℕ → Usage
usage name activity = record {
  tenant = "t";
  session = name;
  internal_session = some name;
  storage_bytes = 1;
  audit_bytes = 1;
  last_activity_unix = activity;
}

abbrev file : JsonFile
file = record { size = 1; mtime = 1; content = string "x" }

abbrev stored : Stored
stored = record {
  files = record {
    conversations = ("old", file) ∷ ("new", file) ∷ [];
    sandboxes = ("old", []) ∷ [];
    audits = ("new", file) ∷ [];
  };
  schedules = [];
  db = record {
    request_windows = [];
    turn_leases = [];
    token_windows = [];
    session_usage = usage "old" 10 ∷ usage "new" 95 ∷ [];
  };
}

deletes_old : (tick host 50 monitor stored 0).2 ≡ record stored {
  files = record {
    conversations = ("new", file) ∷ [];
    sandboxes = [];
    audits = ("new", file) ∷ [];
  };
  db = record stored.db { session_usage = usage "new" 95 ∷ [] };
}
unfolding tick inactive_sessions registered_session_inactive remove_registered_session
    internal_active remove_internal remove_inactive without delete_where count_where
    delete_internal_files
deletes_old = refl

stored-IsSound : IsSound (λ s. s) stored
unfolding verify_quota_registry internals
stored-IsSound = record {
  named = (λ i e. ground arith, (λ i e. ground arith, tt));
  attributed = refl;
}

tick-IsSound_example : IsSound (λ s. s) (tick host 50 monitor stored 0).2
tick-IsSound_example =
    tick-IsSound host 50 monitor stored 0 (λ internal s w sound. sound) stored-IsSound
