-- ===== src/Product/Quota/Tests.antt =====
-- Runs of the quota store, and its theorems at concrete databases.
use sigil_pi.Prelude.{
  ◌-◌, true, ◌+◌, ◌*◌, ◌≤◌, ◌≡◌, ◌&&◌, refl, str_eq, if◌then◌else◌, ltb, String, false, none, some,
  [], ◌∷◌, arith,
}
use sigil_pi.Prelude.Dict.{get}
use sigil_pi.Prelude.Table.{sum_where, delete_where, count_where, find_where}
use sigil_pi.Product.Quota.{
  usage_is, Db, Resources, Limits, Lease, lease_of, counted, resource_refusal, admit_request,
  minute_of, second,
}
use sigil_pi.Product.Quota.Turns.{
  Settlement, busy, refusal_for, admitted, acquire_turn, settle_turn,
}
use sigil_pi.Product.Quota.Bounds.{Fits}
use sigil_pi.Product.Quota.Registry.{
  registered_session_inactive, remove_registered_session, remove_registered_session_lem,
}
use sigil_pi.Product.Quota.Admission.{
  acquire_turn-Fits, acquire_turn_keeps-Fits, acquire_turn_rollback, acquire_turn_keeps_concurrency,
}
use sigil_pi.Product.Quota.Settle.{Covered, settle_turn-Fits, settle_turn_twice}
use sigil_pi.Product.Quota.Requests.{in_window, admissions, admissions-le, admit_request_lem}

abbrev plain : String → String
plain s = s

abbrev resources : Resources
resources = record {
  tokens_per_day = 1000;
  token_reservation_per_turn = 100;
  storage_bytes_per_tenant = 5000;
  storage_reservation_per_turn = 500;
  audit_bytes_per_tenant = 5000;
  audit_reservation_per_turn = 500;
}

abbrev limits : Limits
limits = record {
  requests_per_minute = 2;
  max_concurrent_turns = 2;
  turn_lease_s = 300;
  resources = some resources;
}

-- One turn of tenant "t" is running, and one of its leases has expired.
abbrev one_running : Db
one_running = record {
  request_windows = ("t", record { window_start = 0; count = 1 }) ∷ [];
  turn_leases =
      record {
        lease_id = "a";
        tenant = "t";
        expires = 301 * second;
        token_reservation = 100;
        storage_reservation = 500;
        audit_reservation = 500;
      }
      ∷ record {
        lease_id = "old";
        tenant = "t";
        expires = 1;
        token_reservation = 100;
        storage_reservation = 500;
        audit_reservation = 500;
      }
      ∷ [];
  token_windows = ("t", record { window_start = 0; count = 700 }) ∷ [];
  session_usage =
      record {
        tenant = "t";
        session = "s";
        internal_session = some "s";
        storage_bytes = 40;
        audit_bytes = 60;
        last_activity_unix = 7;
      }
      ∷ [];
}

abbrev full : Db
full = (acquire_turn plain limits "b" "t" (some "s2") (2 * second) one_running).1

abbrev finish : Settlement
finish = record {
  usage = some (30, 40);
  session_id = some "s";
  storage_bytes = some 400;
  audit_bytes = some 90;
  last_activity_unix = none;
}

one_running-Fits : Fits resources "t" (2 * second) one_running
unfolding counted get sum_where
one_running-Fits = ground arith

abbrev finished_lease : Lease
finished_lease = record {
  lease_id = "a";
  tenant = "t";
  expires = 301 * second;
  token_reservation = 100;
  storage_reservation = 500;
  audit_reservation = 500;
}

one_running-Covered : Covered plain finished_lease finish one_running
unfolding find_where
one_running-Covered = record {
  tokens = omega arith;
  storage = λ i n named size. let e : "s" ≡ i = cc in rw (← e) (ground arith);
  audit = λ i n named size. let e : "s" ≡ i = cc in rw (← e) (ground arith);
}

acquire_turn-Fits_example : Fits resources "t" (2 * second) full
unfolding acquire_turn count_where delete_where refusal_for resource_refusal get sum_where
acquire_turn-Fits_example =
    acquire_turn-Fits plain limits "b" "t" (some "s2") (2 * second) one_running resources refl refl

acquire_turn_keeps-Fits_run : Fits resources "t" (2 * second) full
acquire_turn_keeps-Fits_run =
    acquire_turn_keeps-Fits plain limits "b" "t" (some "s2") (2 * second) one_running resources "t"
      refl one_running-Fits

refused_turn_changes_nothing : (acquire_turn plain limits "c" "t" none (3 * second) full).1 ≡ full
unfolding acquire_turn admitted count_where delete_where refusal_for resource_refusal get sum_where
refused_turn_changes_nothing =
    acquire_turn_rollback plain limits "c" "t" none (3 * second) full busy refl

acquire_turn_keeps_concurrency_run : count_where (lease_of "t") full.turn_leases ≤ 2
unfolding count_where
acquire_turn_keeps_concurrency_run =
    acquire_turn_keeps_concurrency plain limits "b" "t" (some "s2") (2 * second) one_running "t"
      (omega arith)

settle_turn-Fits_example :
    Fits resources "t" (2 * second) (settle_turn plain limits "a" finish (2 * second) one_running).1
unfolding find_where
settle_turn-Fits_example =
    settle_turn-Fits plain limits resources "a" "t" finish (2 * second) one_running refl refl
      one_running-Covered one_running-Fits

second_settlement :
    settle_turn plain limits "a" finish 9 (settle_turn plain limits "a" finish 8 one_running).1
    ≡ (false, (settle_turn plain limits "a" finish 8 one_running).1)
second_settlement = settle_turn_twice plain limits "a" finish finish 8 9 one_running

admit_request_lem_run :
    let (answer, db) = admit_request plain limits "t" 5 one_running in
    (answer.0 ≡ ltb (in_window (minute_of 5) "t" one_running) 2)
    × (answer.0 ≡ false → db ≡ one_running)
    × (in_window (minute_of 5) "t" db
        ≡ in_window (minute_of 5) "t" one_running + (if answer.0 && str_eq "t" "t" then 1 else 0))
admit_request_lem_run = admit_request_lem plain limits "t" "t" 5 one_running

admissions-le_example :
    admissions plain limits "t" (("t", 5) ∷ ("u", 6) ∷ ("t", 7) ∷ []) one_running
    ≤ 2 - in_window 0 "t" one_running
admissions-le_example =
    admissions-le plain limits "t" 0 (("t", 5) ∷ ("u", 6) ∷ ("t", 7) ∷ []) one_running
      (refl, (refl, (refl, tt)))

registered_session_removed :
    ((remove_registered_session "t" "s" (some 9) one_running).0 ≡ true)
    × (count_where
          (usage_is "t" "s")
          (remove_registered_session "t" "s" (some 9) one_running).1.session_usage
        ≡ 0)
unfolding count_where
registered_session_removed =
    remove_registered_session_lem "t" "s" "s" 9 one_running (omega arith)
      (unfold registered_session_inactive in refl)
