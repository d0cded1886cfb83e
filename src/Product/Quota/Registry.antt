-- ===== src/Product/Quota/Registry.antt =====
-- The sums that `DurableQuotaStore` reports, and its registry of sessions under retention:
-- `tenant_usage`, `aggregate_usage`, `registered_session_inactive`, `remove_registered_session`.
use sigil_pi.Prelude.{
  ℕ, any, ◌+◌, ◌≤◌, ◌≡◌, refl, arith, String, Bool, true, false, ◌&&◌, Option, none, some, List, [],
  ◌∷◌, leb, ◌==◌, str_eq,
}
use sigil_pi.Prelude.Dict.{get}
use sigil_pi.Prelude.Table.{sum_where, count_where, delete_where}
use sigil_pi.Product.Quota.{Usage, Window, Db, day_of, counted, lease_of, usage_of, usage_is}

pub record Report : Type 0 where
  pub tokens_today : ℕ
  pub storage_bytes : ℕ
  pub audit_bytes : ℕ
  pub active_leases : ℕ
  pub reserved_tokens : ℕ
  pub reserved_storage_bytes : ℕ
  pub reserved_audit_bytes : ℕ

-- The object of `tenant_usage` has all fields but `active_leases`, which is 0 here.
unfoldable pub tenant_usage : (String → String) → String → ℕ → Db → Report
tenant_usage digest tenant_id now db =
    let tenant = digest tenant_id in
    record {
      tokens_today = counted (day_of now) (get tenant db.token_windows);
      storage_bytes = sum_where (usage_of tenant) (λ u. u.storage_bytes) db.session_usage;
      audit_bytes = sum_where (usage_of tenant) (λ u. u.audit_bytes) db.session_usage;
      active_leases = 0;
      reserved_tokens = sum_where (lease_of tenant) (λ l. l.token_reservation) db.turn_leases;
      reserved_storage_bytes =
          sum_where (lease_of tenant) (λ l. l.storage_reservation) db.turn_leases;
      reserved_audit_bytes = sum_where (lease_of tenant) (λ l. l.audit_reservation) db.turn_leases;
    }

abbrev every_row {ℓ} : {A : Type ℓ} → A → Bool
every_row a = true

unfoldable pub aggregate_usage : ℕ → Db → Report
aggregate_usage now db = record {
  tokens_today =
      sum_where (λ (p : String × Window). p.1.window_start == day_of now) (λ p. p.1.count)
        db.token_windows;
  storage_bytes = sum_where every_row (λ u. u.storage_bytes) db.session_usage;
  audit_bytes = sum_where every_row (λ u. u.audit_bytes) db.session_usage;
  active_leases = count_where every_row db.turn_leases;
  reserved_tokens = sum_where every_row (λ l. l.token_reservation) db.turn_leases;
  reserved_storage_bytes = sum_where every_row (λ l. l.storage_reservation) db.turn_leases;
  reserved_audit_bytes = sum_where every_row (λ l. l.audit_reservation) db.turn_leases;
}

abbrev pub internal_is : String → Option String → Bool
internal_is s none = false
internal_is s (some t) = str_eq t s

abbrev pub candidate : String → String → String → ℕ → Usage → Bool
candidate tenant session internal cutoff u =
    usage_is tenant session u
    && internal_is internal u.internal_session
    && leb u.last_activity_unix cutoff

unfoldable pub registered_session_inactive : String → String → String → ℕ → Db → Bool
registered_session_inactive tenant session internal cutoff db =
    any (candidate tenant session internal cutoff) db.session_usage

abbrev pub doomed_row : String → String → Option ℕ → Usage → Bool
doomed_row tenant session none u = usage_is tenant session u
doomed_row tenant session (some cutoff) u =
    usage_is tenant session u && leb u.last_activity_unix cutoff

unfoldable pub remove_registered_session : String → String → Option ℕ → Db → Bool × Db
remove_registered_session tenant session cutoff db = (
  count_where (doomed_row tenant session cutoff) db.session_usage == 1,
  record db { session_usage = delete_where (doomed_row tenant session cutoff) db.session_usage },
)

-- Of the rows that a key tells apart, one that is a candidate is the only one that is deleted.
count-candidate :
    (tenant session internal : String) (cutoff : ℕ) (rows : List Usage)
    → any (candidate tenant session internal cutoff) rows ≡ true
    → 1 ≤ count_where (doomed_row tenant session (some cutoff)) rows
unfolding count_where
count-candidate tenant session internal cutoff [] h = absurd (ground arith)
count-candidate tenant session internal cutoff (u ∷ rows) h =
    ground (arith, count-candidate tenant session internal cutoff rows)

count-doomed-le :
    (tenant session : String) (cutoff : ℕ) (rows : List Usage)
    → count_where (doomed_row tenant session (some cutoff)) rows
      ≤ count_where (usage_is tenant session) rows
unfolding count_where
count-doomed-le tenant session cutoff [] = omega arith
count-doomed-le tenant session cutoff (u ∷ rows) =
    ground (arith, count-doomed-le tenant session cutoff rows)

count-delete-doomed :
    (tenant session : String) (cutoff : ℕ) (rows : List Usage)
    → count_where
          (usage_is tenant session)
          (delete_where (doomed_row tenant session (some cutoff)) rows)
        + count_where (doomed_row tenant session (some cutoff)) rows
      ≡ count_where (usage_is tenant session) rows
unfolding count_where delete_where
count-delete-doomed tenant session cutoff [] = refl
count-delete-doomed tenant session cutoff (u ∷ rows) =
    ground (arith, count-delete-doomed tenant session cutoff rows)

-- Where the key of a session stands at most once: a session that the check under its lock finds
-- inactive is deleted by the sweep with the same cutoff, the sweep says so, and it is gone.
pub remove_registered_session_lem :
    (tenant session internal : String) (cutoff : ℕ) (db : Db)
    → count_where (usage_is tenant session) db.session_usage ≤ 1
    → registered_session_inactive tenant session internal cutoff db ≡ true
    → let (removed, db') = remove_registered_session tenant session (some cutoff) db in
      (removed ≡ true) × (count_where (usage_is tenant session) db'.session_usage ≡ 0)
unfolding registered_session_inactive remove_registered_session
remove_registered_session_lem tenant session internal cutoff db once inactive =
    let rows = db.session_usage in
    let some_row = count-candidate tenant session internal cutoff rows inactive in
    let few = count-doomed-le tenant session cutoff rows in
    let left = count-delete-doomed tenant session cutoff rows in
    (ground arith, omega (arith, left, some_row, few, once))
