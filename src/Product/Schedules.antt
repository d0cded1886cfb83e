-- ===== src/Product/Schedules.antt =====
-- `ProductScheduleStore` of product_service.py: the entries of the JSON file by their keys, and each
-- locked transaction as a function from the entries to the answer and the entries after it. Clock
-- readings are in microseconds. `digest` is SHA-256 in hexadecimal.
pub mod Claims
pub mod Cardinality
pub mod Removal
mod Tests
use sigil_pi.Prelude.{
  ℕ, zero, suc, ◌+◌, ◌*◌, max, String, Bool, true, false, not, any, ◌⊎◌, inl, inr, ◌&&◌, ◌||◌,
  Option, none, some, List, [], ◌∷◌, length, leb, ltb, str_eq, if◌then◌else◌,
}
use Prim.Native.String.{◌++◌ as concat}
use sigil_pi.Prelude.Dict.{Dict, get, put, without}
use sigil_pi.Prelude.Table.{count_where}
use sigil_pi.Agent.Json.{Json, ℤ, pos, negsuc, integer, float, boolean, string}
use sigil_pi.Agent.Bytes.{bytes}
use sigil_pi.Agent.PyInt.{int}
use sigil_pi.Product.Errors.{ProductError, Reply, ok, err}
use sigil_pi.Product.Requests.{session_re, chat_fields, bad_request}

-- An entry; a key that the object lacks, or has with `null`, is `none`.
pub record Entry : Type 0 where
  pub tenant_sha256 : String
  pub principal : String
  pub name : String
  pub session : String
  pub internal_session : String
  pub message : String
  pub every_ms : ℕ
  pub last_run : Option ℕ
  pub last_status : Option String
  pub created_unix : Option ℕ
  pub updated_unix : Option ℕ
  pub lease_owner : Option String
  pub lease_until : Option ℕ

-- What leaves `put`: a `ProductError`, or the `OverflowError` of `int` on an infinite number.
pub data Failure : Type 0 where
  product : ProductError → Failure
  overflow : Failure

-- `int` on a number with a fraction: an integer, the `ValueError` of a NaN, or an `OverflowError`.
pub data Rounded : Type 0 where
  whole : ℤ → Rounded
  not_a_number infinite : Rounded

-- `every_ms`: a positive integer, refused with `none`, or an overflow.
pub data Interval : Type 0 where
  every : ℕ → Interval
  refused overflowed : Interval

abbrev pub of_int : ℤ → Interval
of_int (pos zero) = refused
of_int (pos (suc n)) = every (suc n)
of_int (negsuc n) = refused

abbrev pub of_rounded : Rounded → Interval
of_rounded (whole n) = of_int n
of_rounded not_a_number = refused
of_rounded infinite = overflowed

unfoldable pub interval : (String → Rounded) → Json → Interval
interval float_int (integer n) = of_int n
interval float_int (float x) = of_rounded (float_int x)
interval float_int (string s) = elim (int (bytes s)) [ none ↦ refused | some n ↦ of_int n ]
interval float_int _ = refused

abbrev pub time_of : Option ℕ → ℕ
time_of none = 0
time_of (some t) = t

-- `entry.get(key, legacy) or legacy`
abbrev pub or_legacy : ℕ → Option ℕ → ℕ
or_legacy legacy none = legacy
or_legacy legacy (some zero) = legacy
or_legacy legacy (some (suc t)) = suc t

-- `ProductScheduler._due`
abbrev pub due : Entry → ℕ → Bool
due e now = elim e.last_run [ none ↦ true | some t ↦ leb (t + e.every_ms * 1000) now ]

unfoldable pub last_activity : ℕ → Entry → ℕ
last_activity legacy e =
    max (max (or_legacy legacy e.created_unix) (or_legacy legacy e.updated_unix))
      (time_of e.last_run)

abbrev pub of_session : String → String → Entry → Bool
of_session tenant session e = str_eq e.tenant_sha256 tenant && str_eq e.session session

abbrev pub of_internal : String → String → Entry → Bool
of_internal tenant session e = str_eq e.tenant_sha256 tenant && str_eq e.internal_session session

abbrev pub inactive : ℕ → ℕ → ℕ → Entry → Bool
inactive legacy cutoff now e =
    leb (last_activity legacy e) cutoff && leb (time_of e.lease_until) now

abbrev pub active : ℕ → ℕ → ℕ → Entry → Bool
active legacy cutoff now e = ltb cutoff (last_activity legacy e) || ltb now (time_of e.lease_until)

-- `doomed`, and the loop that deletes its keys.
unfoldable pub doomed : (Entry → Bool) → Dict Entry → List String
doomed p [] = []
doomed p ((k, e) ∷ entries) = let rest = doomed p entries in if p e then k ∷ rest else rest

unfoldable pub delete_keys : List String → Dict Entry → Dict Entry
delete_keys [] entries = entries
delete_keys (k ∷ ks) entries = delete_keys ks (without k entries)

abbrev pub remove_doomed : (Entry → Bool) → Dict Entry → ℕ × Dict Entry
remove_doomed p entries = let ks = doomed p entries in (length ks, delete_keys ks entries)

abbrev pub tenant_count : String → Dict Entry → ℕ
tenant_count tenant entries =
    count_where (λ (p : String × Entry). str_eq p.1.tenant_sha256 tenant) entries

abbrev pub is_key : String → Dict Entry → Bool
is_key key entries = elim (get key entries) [ none ↦ false | some e ↦ true ]

abbrev pub schedule_quota_exceeded : ProductError
schedule_quota_exceeded = record {
  status = 409;
  code = "schedule_quota_exceeded";
  message = "tenant schedule quota reached";
  retry_after = none;
}

-- The arguments of a `put` that passed its checks.
pub record Wanted : Type 0 where
  pub tenant_id : String
  pub principal_id : String
  pub name : String
  pub session : String
  pub message : String
  pub every_ms : ℕ

module _ (digest : String → String) where
  abbrev pub key_of : String → String → String
  key_of tenant_id name = concat (digest tenant_id) (concat ":" name)

  -- `_internal_session`
  abbrev pub internal_session_of : String → String → String
  internal_session_of tenant_id session =
      concat "v1:" (concat (digest tenant_id) (concat ":" (digest session)))

  -- The entry that `put` writes over `prior`.
  unfoldable pub written : Wanted → ℕ → Option Entry → Entry
  written a now prior = record {
    tenant_sha256 = digest a.tenant_id;
    principal = a.principal_id;
    name = a.name;
    session = a.session;
    internal_session = internal_session_of a.tenant_id a.session;
    message = a.message;
    every_ms = a.every_ms;
    last_run = elim prior [ none ↦ none | some e ↦ e.last_run ];
    last_status = elim prior [ none ↦ none | some e ↦ e.last_status ];
    created_unix =
        some (elim prior [ none ↦ now | some e ↦ elim e.created_unix [ none ↦ now | some t ↦ t ] ]);
    updated_unix = some now;
    lease_owner = none;
    lease_until = none;
  }

  -- The transaction of `put`.
  unfoldable pub write_entry : ℕ → Wanted → ℕ → Dict Entry → Option ProductError × Dict Entry
  unfolding written
  write_entry max_per_tenant a now entries =
      let key = key_of a.tenant_id a.name in
      if not (is_key key entries) && leb max_per_tenant (tenant_count (digest a.tenant_id) entries)
      then (some schedule_quota_exceeded, entries)
      else (none, put key (written a now (get key entries)) entries)

  -- The checks of `put`, in order.
  unfoldable pub wanted :
      (String → ℕ)
      → (String → Rounded)
      → String
      → String
      → Json
      → Json
      → Json
      → Json
      → Failure ⊎ Wanted
  unfolding interval
  wanted encoded_len float_int tenant_id principal_id (string name) session message every_ms =
      if session_re name
      then elim (chat_fields encoded_len session message) [
        | err e ↦ inl (product e)
        | ok (s, m) ↦ elim (interval float_int every_ms) [
          | refused ↦
              inl (product (bad_request "invalid_interval" "every_ms must be a positive integer"))
          | overflowed ↦ inl overflow
          | every n ↦ inr (record {
            tenant_id = tenant_id;
            principal_id = principal_id;
            name = name;
            session = s;
            message = m;
            every_ms = n;
          })
        ]
      ]
      else inl (
          product (
            bad_request "invalid_schedule_name"
              "schedule name must use the session-name character set"))
  wanted encoded_len float_int tenant_id principal_id _ session message every_ms = inl (
      product (
        bad_request "invalid_schedule_name"
          "schedule name must use the session-name character set"))

  abbrev pub written_reply : Option ProductError × Dict Entry → Option Failure × Dict Entry
  written_reply (none, entries) = (none, entries)
  written_reply (some e, entries) = (some (product e), entries)

  unfoldable pub put_schedule :
      (String → ℕ)
      → (String → Rounded)
      → ℕ
      → String
      → String
      → Json
      → Json
      → Json
      → Json
      → ℕ
      → Dict Entry
      → Option Failure × Dict Entry
  unfolding write_entry wanted
  put_schedule encoded_len float_int max_per_tenant tenant_id principal_id name session message
        every_ms now entries =
      elim (wanted encoded_len float_int tenant_id principal_id name session message every_ms) [
        | inl e ↦ (some e, entries)
        | inr a ↦ written_reply (write_entry max_per_tenant a now entries)
      ]

  unfoldable pub remove_schedule : String → String → Dict Entry → Bool × Dict Entry
  remove_schedule tenant_id name entries =
      let key = key_of tenant_id name in
      if is_key key entries then (true, without key entries) else (false, entries)

  unfoldable pub remove_session : String → String → Dict Entry → ℕ × Dict Entry
  unfolding doomed delete_keys
  remove_session tenant_id session entries =
      remove_doomed (of_session (digest tenant_id) session) entries

unfoldable pub remove_internal : String → String → Dict Entry → ℕ × Dict Entry
unfolding doomed delete_keys
remove_internal tenant session entries = remove_doomed (of_internal tenant session) entries

-- `legacy` is the file's modification time.
unfoldable pub remove_inactive : ℕ → ℕ → ℕ → Dict Entry → ℕ × Dict Entry
unfolding doomed delete_keys last_activity
remove_inactive legacy cutoff now entries = remove_doomed (inactive legacy cutoff now) entries

unfoldable pub internal_active : String → String → ℕ → ℕ → ℕ → Dict Entry → Bool
unfolding last_activity
internal_active tenant session legacy cutoff now entries =
    any (λ (p : String × Entry). of_internal tenant session p.1 && active legacy cutoff now p.1)
      entries

unfoldable pub mark_run : String → ℕ → String → Dict Entry → Dict Entry
mark_run key when status entries = elim (get key entries) [
  | none ↦ entries
  | some e ↦
      put key
        (record e { last_run = some when; last_status = some status; updated_unix = some when })
        entries
]

-- The entry with a lease of `lease_s` seconds.
abbrev pub claimed : ℕ → String → ℕ → Entry → Entry
claimed now owner lease_s e = record e {
  lease_owner = some owner;
  lease_until = some (now + lease_s * 1000000);
}

unfoldable pub claim_due : String → ℕ → String → ℕ → Dict Entry → Option Entry × Dict Entry
claim_due key now owner lease_s entries = elim (get key entries) [
  | none ↦ (none, entries)
  | some e ↦
      if due e now
      then if ltb now (time_of e.lease_until)
        then (none, entries)
        else (some (claimed now owner lease_s e), put key (claimed now owner lease_s e) entries)
      else (none, entries)
]

abbrev pub owned_by : String → Option String → Bool
owned_by owner none = false
owned_by owner (some o) = str_eq o owner

-- The entry after its run.
abbrev pub completed : ℕ → String → Entry → Entry
completed when status e = record e {
  last_run = some when;
  last_status = some status;
  updated_unix = some when;
  lease_owner = none;
  lease_until = none;
}

unfoldable pub complete_claim : String → String → ℕ → String → Dict Entry → Bool × Dict Entry
complete_claim key owner when status entries = elim (get key entries) [
  | none ↦ (false, entries)
  | some e ↦
      if owned_by owner e.lease_owner
      then (true, put key (completed when status e) entries)
      else (false, entries)
]
