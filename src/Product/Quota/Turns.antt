-- ===== src/Product/Quota/Turns.antt =====
-- `acquire_turn`, `settle_turn` and `remove_session_usage` of `DurableQuotaStore`.
use sigil_pi.Prelude.{
  ℕ, ◌+◌, ◌*◌, max, String, Bool, true, false, Option, none, some, List, ◌∷◌, ◌==◌, leb,
  if◌then◌else◌,
}
use sigil_pi.Prelude.Dict.{Dict, get, put}
use sigil_pi.Prelude.Table.{count_where, delete_where, find_where}
use sigil_pi.Product.Errors.{ProductError, Reply, ok, err}
use sigil_pi.Product.Quota.{
  Window, Lease, Usage, Db, Resources, Limits, second, day_of, counted, lease_of, lease_is, expired,
  usage_is, resource_refusal, register, settle_usage,
}

abbrev pub reservation : (Resources → ℕ) → Limits → ℕ
reservation f limits = elim limits.resources [ none ↦ 0 | some r ↦ f r ]

-- The row of `turn_leases` that an admitted turn gets.
unfoldable pub new_lease : Limits → String → String → ℕ → Lease
new_lease limits id tenant now = record {
  lease_id = id;
  tenant = tenant;
  expires = now + limits.turn_lease_s * second;
  token_reservation = reservation (λ r. r.token_reservation_per_turn) limits;
  storage_reservation = reservation (λ r. r.storage_reservation_per_turn) limits;
  audit_reservation = reservation (λ r. r.audit_reservation_per_turn) limits;
}

abbrev pub busy : ProductError
busy = record {
  status = 429;
  code = "tenant_busy";
  message = "tenant concurrency limit reached";
  retry_after = some 1;
}

-- `prior + actual_tokens`, written only where tokens were used.
unfoldable pub spend : String → ℕ → ℕ → Dict Window → Dict Window
spend tenant tokens now windows =
    let day = day_of now in
    if tokens == 0
    then windows
    else put tenant
        (record { window_start = day; count = counted day (get tenant windows) + tokens }) windows

abbrev pub used : Option (ℕ × ℕ) → ℕ
used none = 0
used (some (input_tokens, output_tokens)) = input_tokens + output_tokens

abbrev pub activity_at : Option ℕ → ℕ → ℕ
activity_at none now = now
activity_at (some t) now = max now t

-- The call's keyword arguments.
pub record Settlement : Type 0 where
  pub usage : Option (ℕ × ℕ)
  pub session_id : Option String
  pub storage_bytes : Option ℕ
  pub audit_bytes : Option ℕ
  pub last_activity_unix : Option ℕ

module _ (digest : String → String) where
  -- A session is registered only where resource limits are set.
  unfoldable pub register_for :
      Option Resources → String → Option String → ℕ → List Usage → List Usage
  register_for none tenant session now rows = rows
  register_for (some r) tenant none now rows = rows
  register_for (some r) tenant (some s) now rows = register tenant (digest s) s now rows

  unfoldable pub refusal_for : Option Resources → String → ℕ → List Lease → Db → Option ProductError
  refusal_for none tenant now leases db = none
  refusal_for (some r) tenant now leases db = resource_refusal r tenant now leases db

  -- What an admission writes.
  unfoldable pub admitted : Limits → String → String → Option String → ℕ → Db → Db
  unfolding register_for new_lease
  admitted limits id tenant session_id now db = record db {
    turn_leases = new_lease limits id tenant now ∷ delete_where (expired now) db.turn_leases;
    session_usage = register_for limits.resources tenant session_id now db.session_usage;
  }

  -- The lease id is the `uuid4` of the call.
  unfoldable pub acquire_turn :
      Limits → String → String → Option String → ℕ → Db → Reply String × Db
  acquire_turn limits id tenant_id session_id now db =
      let tenant = digest tenant_id in
      let leases = delete_where (expired now) db.turn_leases in
      if leb limits.max_concurrent_turns (count_where (lease_of tenant) leases)
      then (err busy, db)
      else elim (refusal_for limits.resources tenant now leases db) [
        | some e ↦ (err e, db)
        | none ↦ (ok id, admitted limits id tenant session_id now db)
      ]

  -- The update needs the session and both sizes.
  unfoldable pub settle_rows :
      Option String → Option ℕ → Option ℕ → String → ℕ → List Usage → List Usage
  settle_rows (some s) (some storage) (some audit) tenant activity rows =
      settle_usage tenant (digest s) s storage audit activity rows
  settle_rows _ _ _ tenant activity rows = rows

  -- Actual usage in the place of the reservations, where resource limits are set.
  unfoldable pub settle_resources : Option Resources → String → Settlement → ℕ → Db → Db
  unfolding spend settle_rows
  settle_resources none tenant s now db = db
  settle_resources (some r) tenant s now db = record db {
    token_windows = spend tenant (used s.usage) now db.token_windows;
    session_usage =
        settle_rows s.session_id s.storage_bytes s.audit_bytes tenant
          (activity_at s.last_activity_unix now) db.session_usage;
  }

  unfoldable pub settle_turn : Limits → String → Settlement → ℕ → Db → Bool × Db
  unfolding settle_resources
  settle_turn limits id s now db = elim (find_where (lease_is id) db.turn_leases) [
    | none ↦ (false, db)
    | some l ↦ (
      true,
      settle_resources limits.resources l.tenant s now
          (record db { turn_leases = delete_where (lease_is id) db.turn_leases }),
    )
  ]

  unfoldable pub remove_session_usage : String → String → Db → Db
  remove_session_usage tenant_id session_id db = record db {
    session_usage = delete_where (usage_is (digest tenant_id) (digest session_id)) db.session_usage;
  }
