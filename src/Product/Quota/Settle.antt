-- ===== src/Product/Quota/Settle.antt =====
-- What `settle_turn` does to the limits: actual usage takes the reservation's place.
use sigil_pi.Prelude.{
  ℕ, ◌+◌, ◌≤◌, ◌≡◌, refl, sym, String, false, Option, none, some, List, arith, inl, inr,
  Option-cases, str_eq, eq_iff, if◌then◌else◌,
}
use sigil_pi.Prelude.Dict.{get, get-put, Dict}
use sigil_pi.Prelude.Table.{
  delete_where, find_where, find_where_holds, find_where-delete_where, delete_where_absent,
  sum_where-delete_where-le, sum_where-delete_where_found, sum_where-upsert_found,
  sum_where-upsert_new,
}
use sigil_pi.Product.Quota.{
  Window, Db, Resources, Limits, Lease, Usage, lease_of, lease_is, usage_is, usage_of, day_of,
  counted, settle_usage, settled, settled_new,
}
use sigil_pi.Product.Quota.Turns.{
  Settlement, used, spend, settle_rows, activity_at, settle_resources, settle_turn,
}
use sigil_pi.Product.Quota.Bounds.{Fits, reserved, stored}

-- The bytes that the session's row holds so far.
abbrev pub row_bytes : (Usage → ℕ) → String → String → List Usage → ℕ
row_bytes f tenant session rows = elim (find_where (usage_is tenant session) rows) [
  | none ↦ 0
  | some v ↦ f v
]

-- The tokens that a settlement writes are added to the tenant's window of the day.
counted-spend :
    (u tenant : String) (tokens now : ℕ) (windows : Dict Window)
    → counted (day_of now) (get u (spend tenant tokens now windows))
      ≡ counted (day_of now) (get u windows) + (if str_eq tenant u then tokens else 0)
unfolding spend counted
counted-spend u tenant tokens now windows = ground (
  arith,
  eq_iff tenant u,
  get-put tenant u
      (record {
        window_start = day_of now;
        count = counted (day_of now) (get tenant windows) + tokens;
      })
      windows,
)

-- A settled row grows the tenant's sum by at most what it exceeds the old row by.
stored-settle_usage-le :
    (f : Usage → ℕ) (u t s i : String) (storage audit activity n slack : ℕ) (rows : List Usage)
    → ((v : Usage) → f (settled i storage audit activity v) ≡ n)
    → f (settled_new t s i storage audit activity) ≡ n
    → n ≤ row_bytes f t s rows + slack
    → stored f u (settle_usage t s i storage audit activity rows)
      ≤ stored f u rows + (if str_eq t u then slack else 0)
unfolding settle_usage
stored-settle_usage-le f u t s i storage audit activity n slack rows same same_new fits =
    let new = settled_new t s i storage audit activity in
    let update = settled i storage audit activity in
    elim (Option-cases (find_where (usage_is t s) rows)) [
      | inl absent ↦ ground (
        arith,
        absent,
        same_new,
        sum_where-upsert_new (usage_of u) (usage_is t s) f update new rows absent,
      )
      | inr (x, found) ↦ ground (
        arith,
        found,
        same x,
        eq_iff x.tenant t,
        find_where_holds (usage_is t s) rows found,
        sum_where-upsert_found (usage_of u) (usage_is t s) f update new rows found refl,
      )
    ]

-- `n`, where it is written for session `i`, exceeds the row by no more than `slack`.
abbrev pub GrowsWithin :
    (String → String) → (Usage → ℕ) → String → List Usage → ℕ → Option String → Option ℕ → Type 0
GrowsWithin digest f tenant rows slack session bytes =
    (i : String) (n : ℕ)
    → session ≡ some i
    → bytes ≡ some n
    → n ≤ row_bytes f tenant (digest i) rows + slack

-- The turn used no more than was reserved for it.
pub record Covered (digest : String → String) (l : Lease) (s : Settlement) (db : Db) : Type 0 where
  pub tokens : used s.usage ≤ l.token_reservation
  pub storage :
      GrowsWithin digest
        (λ v. v.storage_bytes)
        l.tenant
        db.session_usage
        l.storage_reservation
        s.session_id
        s.storage_bytes
  pub audit :
      GrowsWithin digest
        (λ v. v.audit_bytes)
        l.tenant
        db.session_usage
        l.audit_reservation
        s.session_id
        s.audit_bytes

module _ (digest : String → String) where
  stored-settle_rows-le :
      (session : Option String) (storage audit : Option ℕ) (u t : String) (activity x y : ℕ)
      (rows : List Usage)
      → GrowsWithin digest (λ v. v.storage_bytes) t rows x session storage
      → GrowsWithin digest (λ v. v.audit_bytes) t rows y session audit
      → let rows' = settle_rows digest session storage audit t activity rows in
        (stored (λ v. v.storage_bytes) u rows'
          ≤ stored (λ v. v.storage_bytes) u rows + (if str_eq t u then x else 0))
        × (stored (λ v. v.audit_bytes) u rows'
            ≤ stored (λ v. v.audit_bytes) u rows + (if str_eq t u then y else 0))
  unfolding settle_rows
  stored-settle_rows-le (some i) (some n) (some m) u t activity x y rows gs ga = (
    stored-settle_usage-le (λ v. v.storage_bytes) u t (digest i) i n m activity n x rows (λ v. refl)
        refl (gs i n refl refl),
    stored-settle_usage-le (λ v. v.audit_bytes) u t (digest i) i n m activity m y rows (λ v. refl)
        refl (ga i m refl refl),
  )
  stored-settle_rows-le _ _ _ u t activity x y rows gs ga = (omega arith, omega arith)

  -- A released reservation leaves its tenant's sum.
  reserved-released-le :
      (f : Lease → ℕ) (u id : String) (leases : List Lease) {l : Lease}
      → find_where (lease_is id) leases ≡ some l
      → reserved f u (delete_where (lease_is id) leases) + (if str_eq l.tenant u then f l else 0)
        ≤ reserved f u leases
  reserved-released-le f u id leases {l} found = ground (
    arith,
    sum_where-delete_where-le (lease_of u) (lease_is id) f leases,
    sum_where-delete_where_found (lease_of u) (lease_is id) f leases {x = l} found,
  )

  settle_resources-Fits :
      (o : Option Resources) (r : Resources) (id u : String) (s : Settlement) (now : ℕ) (db : Db)
      {l : Lease}
      → o ≡ some r
      → find_where (lease_is id) db.turn_leases ≡ some l
      → Covered digest l s db
      → Fits r u now db
      → Fits r u now (
          settle_resources digest o l.tenant s now
            (record db { turn_leases = delete_where (lease_is id) db.turn_leases }))
  unfolding settle_resources
  settle_resources-Fits none r id u s now db e found covered fits = cc
  settle_resources-Fits (some q) r id u s now db {l} e found covered fits = ground (
    arith,
    reserved-released-le (λ x. x.token_reservation) u id db.turn_leases {l = l} found,
    reserved-released-le (λ x. x.storage_reservation) u id db.turn_leases {l = l} found,
    reserved-released-le (λ x. x.audit_reservation) u id db.turn_leases {l = l} found,
    counted-spend u l.tenant (used s.usage) now db.token_windows,
    stored-settle_rows-le s.session_id s.storage_bytes s.audit_bytes u l.tenant
        (activity_at s.last_activity_unix now) l.storage_reservation l.audit_reservation
        db.session_usage covered.storage covered.audit,
  )

  -- Settling a turn that used no more than its reservation keeps every tenant within its limits.
  pub settle_turn-Fits :
      (limits : Limits) (r : Resources) (id u : String) (s : Settlement) (now : ℕ) (db : Db)
      {l : Lease}
      → limits.resources ≡ some r
      → find_where (lease_is id) db.turn_leases ≡ some l
      → Covered digest l s db
      → Fits r u now db
      → Fits r u now (settle_turn digest limits id s now db).1
  unfolding settle_turn
  settle_turn-Fits limits r id u s now db {l} set found covered fits =
      rw (found, settle_turn)
        (settle_resources-Fits limits.resources r id u s now db {l = l} set found covered fits)

  turn_leases-settle_resources :
      (o : Option Resources) (tenant : String) (s : Settlement) (now : ℕ) (db : Db)
      → (settle_resources digest o tenant s now db).turn_leases ≡ db.turn_leases
  unfolding settle_resources
  turn_leases-settle_resources none tenant s now db = refl
  turn_leases-settle_resources (some r) tenant s now db = refl

  pub lease-settle_turn :
      (limits : Limits) (id : String) (s : Settlement) (now : ℕ) (db : Db)
      → find_where (lease_is id) (settle_turn digest limits id s now db).1.turn_leases ≡ none
  unfolding settle_turn
  lease-settle_turn limits id s now db =
      elim (Option-cases (find_where (lease_is id) db.turn_leases)) [
        | inl unknown ↦ rw (unknown, settle_turn) unknown
        | inr (l, found) ↦
            rw (found, settle_turn)
              (rw turn_leases-settle_resources
                (find_where-delete_where (lease_is id) db.turn_leases))
      ]

  pub turn_leases-settle_turn :
      (limits : Limits) (id : String) (s : Settlement) (now : ℕ) (db : Db)
      → (settle_turn digest limits id s now db).1.turn_leases
        ≡ delete_where (lease_is id) db.turn_leases
  unfolding settle_turn
  turn_leases-settle_turn limits id s now db =
      elim (Option-cases (find_where (lease_is id) db.turn_leases)) [
        | inl unknown ↦
            rw (unknown, settle_turn)
              (sym (delete_where_absent (lease_is id) db.turn_leases unknown))
        | inr (l, found) ↦ rw (found, settle_turn) (rw turn_leases-settle_resources)
      ]

  settle_turn_unknown :
      (limits : Limits) (id : String) (s : Settlement) (now : ℕ) (db : Db)
      → find_where (lease_is id) db.turn_leases ≡ none
      → settle_turn digest limits id s now db ≡ (false, db)
  unfolding settle_turn
  settle_turn_unknown limits id s now db unknown = rw (unknown, settle_turn)

  -- A lease is settled once: after a settlement, a second one answers `false` and changes nothing.
  pub settle_turn_twice :
      (limits : Limits) (id : String) (s s' : Settlement) (now now' : ℕ) (db : Db)
      → settle_turn digest limits id s' now' (settle_turn digest limits id s now db).1
        ≡ (false, (settle_turn digest limits id s now db).1)
  settle_turn_twice limits id s s' now now' db =
      settle_turn_unknown limits id s' now' _ (lease-settle_turn limits id s now db)
