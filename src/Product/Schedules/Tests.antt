-- ===== src/Product/Schedules/Tests.antt =====
-- Two schedules of one tenant, and the theorems on schedules at them. A digest is stood for by "0".
use sigil_pi.Prelude.{
  ◌+◌, ◌*◌, ◌≤◌, ◌≡◌, inl, inr, refl, arith, not, String, none, some, [], ◌∷◌, leb, if◌then◌else◌,
}
use sigil_pi.Prelude.Dict.{Dict, get}
use sigil_pi.Prelude.Table.{count_where}
use sigil_pi.Product.Schedules.{
  Entry, tenant_count, active, of_session, remove_session, remove_inactive, claimed, claim_due,
  completed, complete_claim, Wanted, written, write_entry,
}
use sigil_pi.Product.Schedules.Claims.{completes, claims, marks, run, claim_due_exclusive}
use sigil_pi.Product.Schedules.Cardinality.{IsKeyed, write_entry_keeps}
use sigil_pi.Product.Schedules.Removal.{
  kept, remove_session_lem, remove_inactive_lem, complete_claim_lem, write_entry_unleases,
}

abbrev zero_digest : String → String
zero_digest s = "0"

abbrev daily : Wanted
daily = record {
  tenant_id = "acme";
  principal_id = "p";
  name = "daily";
  session = "s";
  message = "report";
  every_ms = 60000;
}

abbrev entry : Entry
entry = record {
  tenant_sha256 = "0";
  principal = "p";
  name = "daily";
  session = "s";
  internal_session = "v1:0:0";
  message = "report";
  every_ms = 60000;
  last_run = none;
  last_status = none;
  created_unix = some 5;
  updated_unix = some 5;
  lease_owner = none;
  lease_until = none;
}

abbrev leased : Entry
leased = record entry { lease_owner = some "w1"; lease_until = some 300000010 }

abbrev store : Dict Entry
store = ("0:daily", entry) ∷ ("0:weekly", record entry { name = "weekly"; session = "t" }) ∷ []

abbrev running : Dict Entry
running = ("0:daily", leased) ∷ []

claim_due_exclusive_example :
    (claim_due "0:daily" 200000000 "w2" 300 (
      run zero_digest 32
        (completes "0:daily" "w2" 20 "ok"
          ∷ claims "0:weekly" 400000000 "w2" 300
          ∷ marks "0:daily" 7 "ok"
          ∷ [])
        (claim_due "0:daily" 10 "w1" 300 store).1)).0
    ≡ none
unfolding claim_due get
claim_due_exclusive_example =
    claim_due_exclusive zero_digest 32 "0:daily" "w1" 10 300 store
      (completes "0:daily" "w2" 20 "ok"
        ∷ claims "0:weekly" 400000000 "w2" 300
        ∷ marks "0:daily" 7 "ok"
        ∷ [])
      "w2" 200000000 300 refl (inr refl, (inl refl, (tt, tt))) (omega arith)

store-IsKeyed : IsKeyed zero_digest store
unfolding get
store-IsKeyed tenant name e found = ground arith

write_entry_keeps_example :
    IsKeyed zero_digest (write_entry zero_digest 2 daily 9 store).1
    × (tenant_count "0" (write_entry zero_digest 2 daily 9 store).1 ≤ 2)
unfolding count_where
write_entry_keeps_example =
    write_entry_keeps zero_digest 2 (λ t n t' n' e. refl) daily 9 store "0" store-IsKeyed
      (omega arith)

removed_sessions :
    get "0:daily" (remove_session zero_digest "acme" "s" store).1
    ≡ kept (of_session "0" "s") (get "0:daily" store)
unfolding get
removed_sessions = remove_session_lem zero_digest "acme" "s" "0:daily" store (refl, (refl, tt))

remove_inactive_lem_run :
    get "0:daily" (remove_inactive 3 100 200 store).1
    ≡ kept (λ e. not (active 3 100 200 e)) (get "0:daily" store)
unfolding get
remove_inactive_lem_run = remove_inactive_lem 3 100 200 "0:daily" store (refl, (refl, tt))

complete_claim_lem_run :
    (claim_due "0:daily" 60000050 "w2" 300 (complete_claim "0:daily" "w1" 50 "ok" running).1).0 ≡ (
      if leb (50 + 60000 * 1000) 60000050
      then some (claimed 60000050 "w2" 300 (completed 50 "ok" leased))
      else none)
unfolding get
complete_claim_lem_run =
    complete_claim_lem "0:daily" "w1" 50 "ok" running {e = leased} 60000050 "w2" 300 refl refl

write_entry_unleases_example :
    (claim_due "0:daily" 12 "w2" 300 (write_entry zero_digest 32 daily 11 running).1).0
    ≡ some (claimed 12 "w2" 300 (written zero_digest daily 11 (some leased)))
unfolding write_entry written get count_where
write_entry_unleases_example =
    write_entry_unleases zero_digest 32 daily 11 running 12 "w2" 300 refl refl
