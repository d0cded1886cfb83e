-- ===== src/Product/Quota.antt =====
-- `DurableQuotaStore` of product_service.py: its four tables, and each transaction as a function
-- from the database to the answer and the database after it. A transaction that raises or answers
-- "no" rolls back. Clock readings are in microseconds. `digest` is SHA-256 in hexadecimal.
pub mod Turns
pub mod Bounds
pub mod Admission
pub mod Settle
pub mod Requests
pub mod Registry
pub mod Reconcile
mod Tests
use sigil_pi.Prelude.{
  ℕ, ◌+◌, ◌-◌, ◌*◌, ◌/◌, max, String, Bool, true, false, ◌&&◌, Option, none, some, List, [], ◌∷◌,
  ltb, leb, ◌==◌, str_eq, if◌then◌else◌,
}
use sigil_pi.Prelude.Dict.{Dict, get, put}
use sigil_pi.Prelude.Table.{sum_where, count_where, delete_where, find_where, upsert}
use sigil_pi.Product.Errors.{ProductError, Reply, ok, err}

pub record Window : Type 0 where
  pub window_start : ℕ
  pub count : ℕ

pub record Lease : Type 0 where
  pub lease_id : String
  pub tenant : String
  pub expires : ℕ
  pub token_reservation : ℕ
  pub storage_reservation : ℕ
  pub audit_reservation : ℕ

pub record Usage : Type 0 where
  pub tenant : String
  pub session : String
  pub internal_session : Option String
  pub storage_bytes : ℕ
  pub audit_bytes : ℕ
  pub last_activity_unix : ℕ

pub record Db : Type 0 where
  pub request_windows : Dict Window
  pub turn_leases : List Lease
  pub token_windows : Dict Window
  pub session_usage : List Usage

-- The six resource settings of the constructor, given all together or not at all.
pub record Resources : Type 0 where
  pub tokens_per_day : ℕ
  pub token_reservation_per_turn : ℕ
  pub storage_bytes_per_tenant : ℕ
  pub storage_reservation_per_turn : ℕ
  pub audit_bytes_per_tenant : ℕ
  pub audit_reservation_per_turn : ℕ

pub record Limits : Type 0 where
  pub requests_per_minute : ℕ
  pub max_concurrent_turns : ℕ
  pub turn_lease_s : ℕ
  pub resources : Option Resources

abbrev pub second : ℕ
second = 1000000

-- `int(now // 60) * 60` and `int(now // 86400) * 86400`, in seconds.
abbrev pub minute_of : ℕ → ℕ
minute_of now = now / (60 * second) * 60

abbrev pub day_of : ℕ → ℕ
day_of now = now / (86400 * second) * 86400

-- `max(1, int(t - now))` for a time `t` in seconds.
abbrev pub retry_at : ℕ → ℕ → ℕ
retry_at t now = max 1 ((t * second - now) / second)

-- `0 if row is None or row[0] != window else row[1]`
unfoldable pub counted : ℕ → Option Window → ℕ
counted start none = 0
counted start (some w) = if w.window_start == start then w.count else 0

abbrev pub lease_of : String → Lease → Bool
lease_of tenant l = str_eq l.tenant tenant

abbrev pub lease_is : String → Lease → Bool
lease_is id l = str_eq l.lease_id id

abbrev pub expired : ℕ → Lease → Bool
expired now l = leb l.expires now

abbrev pub usage_of : String → Usage → Bool
usage_of tenant u = str_eq u.tenant tenant

abbrev pub usage_is : String → String → Usage → Bool
usage_is tenant session u = str_eq u.tenant tenant && str_eq u.session session

unfoldable pub admit_request : (String → String) → Limits → String → ℕ → Db → (Bool × ℕ) × Db
unfolding counted
admit_request digest limits tenant_id now db =
    let tenant = digest tenant_id in
    let window = minute_of now in
    let count = counted window (get tenant db.request_windows) in
    if leb limits.requests_per_minute count then ((false, retry_at (window + 60) now), db) else (
      (true, 0),
      record db {
        request_windows =
            put tenant (record { window_start = window; count = count + 1 }) db.request_windows;
      },
    )

token_refusal : Resources → String → ℕ → List Lease → Db → Option ProductError
unfolding counted
token_refusal r tenant now leases db =
    let day = day_of now in
    let tokens = counted day (get tenant db.token_windows) in
    let reserved = sum_where (lease_of tenant) (λ l. l.token_reservation) leases in
    if ltb r.tokens_per_day (tokens + reserved + r.token_reservation_per_turn)
    then some (record {
      status = 429;
      code = "token_quota_exceeded";
      message = "tenant daily token quota exceeded";
      retry_after = some (retry_at (day + 86400) now);
    })
    else none

storage_refusal : Resources → String → List Lease → Db → Option ProductError
storage_refusal r tenant leases db =
    let storage = sum_where (usage_of tenant) (λ u. u.storage_bytes) db.session_usage in
    let reserved = sum_where (lease_of tenant) (λ l. l.storage_reservation) leases in
    if ltb r.storage_bytes_per_tenant (storage + reserved + r.storage_reservation_per_turn)
    then some (record {
      status = 507;
      code = "storage_quota_exceeded";
      message = "tenant storage quota exceeded";
      retry_after = none;
    })
    else none

audit_refusal : Resources → String → List Lease → Db → Option ProductError
audit_refusal r tenant leases db =
    let audit = sum_where (usage_of tenant) (λ u. u.audit_bytes) db.session_usage in
    let reserved = sum_where (lease_of tenant) (λ l. l.audit_reservation) leases in
    if ltb r.audit_bytes_per_tenant (audit + reserved + r.audit_reservation_per_turn)
    then some (record {
      status = 507;
      code = "audit_quota_exceeded";
      message = "tenant audit quota exceeded";
      retry_after = none;
    })
    else none

abbrev pub first_of_two : Option ProductError → Option ProductError → Option ProductError
first_of_two none b = b
first_of_two (some e) b = some e

-- The three resource checks of `acquire_turn`, in order.
pub resource_refusal : Resources → String → ℕ → List Lease → Db → Option ProductError
unfolding token_refusal storage_refusal audit_refusal
resource_refusal r tenant now leases db =
    first_of_two (token_refusal r tenant now leases db)
      (first_of_two (storage_refusal r tenant leases db) (audit_refusal r tenant leases db))

-- The row that admission writes: a new session starts at 0 bytes, a known one keeps its bytes.
pub register : String → String → String → ℕ → List Usage → List Usage
register tenant session internal now =
    upsert (usage_is tenant session)
      (λ u. record u {
        internal_session = some internal;
        last_activity_unix = max u.last_activity_unix now;
      })
      (record {
        tenant = tenant;
        session = session;
        internal_session = some internal;
        storage_bytes = 0;
        audit_bytes = 0;
        last_activity_unix = now;
      })

-- The columns that settlement writes in a known session's row.
abbrev pub settled : String → ℕ → ℕ → ℕ → Usage → Usage
settled internal storage audit activity u = record u {
  internal_session = some internal;
  storage_bytes = storage;
  audit_bytes = audit;
  last_activity_unix = max u.last_activity_unix activity;
}

abbrev pub settled_new : String → String → String → ℕ → ℕ → ℕ → Usage
settled_new tenant session internal storage audit activity = record {
  tenant = tenant;
  session = session;
  internal_session = some internal;
  storage_bytes = storage;
  audit_bytes = audit;
  last_activity_unix = activity;
}

-- The row that settlement writes: the exact sizes.
pub settle_usage : String → String → String → ℕ → ℕ → ℕ → List Usage → List Usage
settle_usage tenant session internal storage audit activity =
    upsert (usage_is tenant session) (settled internal storage audit activity)
      (settled_new tenant session internal storage audit activity)
