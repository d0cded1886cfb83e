-- ===== src/Product/Data/Tests.antt =====
-- A tenant's session with all its state, and another's conversation.
use sigil_pi.Prelude.{ℕ, ◌≡◌, refl, String, true, some, [], ◌∷◌}
use sigil_pi.Prelude.Dict.{get, without}
use sigil_pi.Prelude.Table.{delete_where, update_where}
use sigil_pi.Agent.Json.{string}
use sigil_pi.Product.Errors.{err}
use sigil_pi.Product.Requests.{validate_session}
use sigil_pi.Product.Quota.{Usage}
use sigil_pi.Product.Quota.Turns.{remove_session_usage}
use sigil_pi.Product.Data.{
  JsonFile, regular, symlink, Stored, footprint, delete, delete_locked, export, unsafe_session_data,
}
use sigil_pi.Product.Quota.Reconcile.{reconcile_registered, inactive_sessions}
use sigil_pi.Product.Data.Deletion.{Erases, Answers, delete_locked_lem}

abbrev plain : String → String
plain s = s

abbrev file : ℕ → JsonFile
file size = record { size = size; mtime = 5; content = string "x" }

abbrev row : Usage
row = record {
  tenant = "t";
  session = "v1:t:s";
  internal_session = some "v1:t:s";
  storage_bytes = 1;
  audit_bytes = 1;
  last_activity_unix = 3;
}

abbrev stored : Stored
stored = record {
  files = record {
    conversations = ("v1:t:s", file 10) ∷ ("v1:u:s", file 20) ∷ [];
    sandboxes = ("v1:t:s", ("a", regular 7 9 (1 ∷ [])) ∷ ("b", symlink) ∷ []) ∷ [];
    audits = ("v1:t:s", file 4) ∷ [];
  };
  schedules = [];
  db = record {
    request_windows = [];
    turn_leases = [];
    token_windows = [];
    session_usage = row ∷ [];
  };
}

footprint_of_session :
    footprint plain stored.files "v1:t:s"
    ≡ record { storage_bytes = 17; audit_bytes = 4; last_activity_unix = 9 }
unfolding footprint get
footprint_of_session = refl

refuses_links : export plain (λ s. 1) (λ j. 2) 100 "t" "s" stored ≡ err unsafe_session_data
unfolding export get validate_session
refuses_links = refl

deletes_usage : (delete plain (λ s. 1) true "t" "s" stored).1.db.session_usage ≡ []
unfolding delete get without delete_where validate_session remove_session_usage
deletes_usage = refl

reconciled :
    reconcile_registered (λ i. footprint plain stored.files i) stored.db
    ≡ some (
      1,
      record stored.db {
        session_usage =
            record row { storage_bytes = 17; audit_bytes = 4; last_activity_unix = 9 } ∷ [];
      },
    )
unfolding reconcile_registered footprint get update_where
reconciled = refl

inactive_at_three : inactive_sessions 3 stored.db ≡ row ∷ []
unfolding inactive_sessions
inactive_at_three = refl

delete_locked_lem_example :
    Erases plain "t" "s" "v1:t:s" stored (delete_locked plain true "t" "s" stored).1
    × Answers plain "t" "s" "v1:t:s" true stored (delete_locked plain true "t" "s" stored)
delete_locked_lem_example = delete_locked_lem plain "t" "s" true stored tt
