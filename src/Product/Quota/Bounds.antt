-- ===== src/Product/Quota/Bounds.antt =====
-- A tenant's usage and reservations under `acquire_turn` and `settle_turn`.
use sigil_pi.Prelude.{
  ℕ, ◌+◌, ◌≤◌, ◌<◌, ◌≡◌, ◌≢◌, ◌⊎◌, ◌∙◌, ap, max, leb, refl, String, Option, none, some, List, arith,
  str_eq, eq_iff, if◌then◌else◌, Option-cases, Bool-cases, inl, inr,
}
use sigil_pi.Prelude.Dict.{get}
use sigil_pi.Prelude.Table.{
  sum_where, count_where, delete_where, sum_where-delete_where-le, sum_where-upsert_same,
}
use sigil_pi.Product.Errors.{ProductError, Reply, ok, err}
use sigil_pi.Product.Quota.{
  Lease, Usage, Db, Resources, Limits, day_of, counted, lease_of, usage_of, expired,
  resource_refusal, register,
}
use sigil_pi.Product.Quota.Turns.{
  busy, new_lease, reservation, admitted, refusal_for, register_for, acquire_turn,
}

abbrev pub tokens_today : String → ℕ → Db → ℕ
tokens_today tenant now db = counted (day_of now) (get tenant db.token_windows)

abbrev pub reserved : (Lease → ℕ) → String → List Lease → ℕ
reserved f tenant leases = sum_where (lease_of tenant) f leases

abbrev pub stored : (Usage → ℕ) → String → List Usage → ℕ
stored f tenant rows = sum_where (usage_of tenant) f rows

-- What is used and what is reserved stay together within each limit of the tenant.
pub record Fits (r : Resources) (tenant : String) (now : ℕ) (db : Db) : Type 0 where
  pub tokens :
      tokens_today tenant now db + reserved (λ l. l.token_reservation) tenant db.turn_leases
      ≤ r.tokens_per_day
  pub storage :
      stored (λ u. u.storage_bytes) tenant db.session_usage
        + reserved (λ l. l.storage_reservation) tenant db.turn_leases
      ≤ r.storage_bytes_per_tenant
  pub audit :
      stored (λ u. u.audit_bytes) tenant db.session_usage
        + reserved (λ l. l.audit_reservation) tenant db.turn_leases
      ≤ r.audit_bytes_per_tenant

-- Passing the three checks leaves room for one more reservation.
abbrev pub Room : Resources → String → ℕ → List Lease → Db → Type 0
Room r tenant now leases db =
    (tokens_today tenant now db
        + reserved (λ l. l.token_reservation) tenant leases
        + r.token_reservation_per_turn
      ≤ r.tokens_per_day)
    × (stored (λ u. u.storage_bytes) tenant db.session_usage
          + reserved (λ l. l.storage_reservation) tenant leases
          + r.storage_reservation_per_turn
        ≤ r.storage_bytes_per_tenant)
    × (stored (λ u. u.audit_bytes) tenant db.session_usage
          + reserved (λ l. l.audit_reservation) tenant leases
          + r.audit_reservation_per_turn
        ≤ r.audit_bytes_per_tenant)

pub resource_refusal-none :
    (r : Resources) (tenant : String) (now : ℕ) (leases : List Lease) (db : Db)
    → resource_refusal r tenant now leases db ≡ none
    → Room r tenant now leases db
unfolding resource_refusal
resource_refusal-none r tenant now leases db h = ground arith

-- Registering a session changes no sum of bytes.
stored-register :
    (f : Usage → ℕ) (tenant t s i : String) (now : ℕ) (rows : List Usage)
    → ((u : Usage) (x : Option String) (n : ℕ)
        → f (record u { internal_session = x; last_activity_unix = n }) ≡ f u)
    → f (record {
      tenant = t;
      session = s;
      internal_session = some i;
      storage_bytes = 0;
      audit_bytes = 0;
      last_activity_unix = now;
    })
      ≡ 0
    → stored f tenant (register t s i now rows) ≡ stored f tenant rows
unfolding register
stored-register f tenant t s i now rows same zero =
    sum_where-upsert_same _ _ f _ _ rows (λ u. refl)
      (λ u. same u (some i) (max u.last_activity_unix now)) zero

module _ (digest : String → String) (limits : Limits) where
  module _ (id tenant_id : String) (session_id : Option String) (now : ℕ) (db : Db) where
    abbrev pub acquired : Reply String × Db
    acquired = acquire_turn digest limits id tenant_id session_id now db

    abbrev pub live : List Lease
    live = delete_where (expired now) db.turn_leases

    -- The two ways that the call ends.
    pub acquired-cases :
        ((e : ProductError) × (acquired ≡ (err e, db)))
        ⊎ ((count_where (lease_of (digest tenant_id)) live < limits.max_concurrent_turns)
            × (refusal_for digest limits.resources (digest tenant_id) now live db ≡ none)
            × (acquired ≡ (ok id, admitted digest limits id (digest tenant_id) session_id now db)))
    unfolding acquire_turn
    acquired-cases =
        elim (Bool-cases
          (leb limits.max_concurrent_turns (count_where (lease_of (digest tenant_id)) live))) [
            | inl full ↦ inl (busy, rw full)
            | inr room ↦
                elim (Option-cases
                  (refusal_for digest limits.resources (digest tenant_id) now live db)) [
                    | inl none_refuses ↦ inr (ground arith, none_refuses, rw (room, none_refuses))
                    | inr (e, refuses) ↦ inl (e, rw (room, refuses))
                  ]
          ]

    stored-register_for :
        (o : Option Resources) (f : Usage → ℕ) (u : String)
        → ((v : Usage) (x : Option String) (n : ℕ)
            → f (record v { internal_session = x; last_activity_unix = n }) ≡ f v)
        → ((t s i : String)
            → f (record {
              tenant = t;
              session = s;
              internal_session = some i;
              storage_bytes = 0;
              audit_bytes = 0;
              last_activity_unix = now;
            })
              ≡ 0)
        → stored f u (register_for digest o (digest tenant_id) session_id now db.session_usage)
          ≡ stored f u db.session_usage
    unfolding register_for
    stored-register_for o f u same zero = elim (Option-cases o) [
      | inl e ↦ rw e
      | inr (q, e) ↦ rw e (elim (Option-cases session_id) [
        | inl e' ↦ rw e'
        | inr (s, e') ↦ rw e' (stored-register f u _ _ _ now db.session_usage same (zero _ _ _))
      ])
    ]

    pub refusal_for-Room :
        (o : Option Resources) (r : Resources) (t : String) (leases : List Lease)
        → o ≡ some r
        → refusal_for digest o t now leases db ≡ none
        → Room r t now leases db
    unfolding refusal_for
    refusal_for-Room none r t leases e h = cc
    refusal_for-Room (some q) r t leases e h =
        let same : q ≡ r = cc in rw same at (resource_refusal-none q t now leases db h)

    reserved-admitted :
        (r : Resources) (f : Lease → ℕ) (g : Resources → ℕ) (u : String)
        → limits.resources ≡ some r
        → ((l : String) (t : String) → f (new_lease limits l t now) ≡ reservation g limits)
        → reserved f u (admitted digest limits id (digest tenant_id) session_id now db).turn_leases
          ≡ (if str_eq (digest tenant_id) u then g r else 0) + reserved f u live
    unfolding admitted sum_where
    reserved-admitted r f g u set same =
        let e : f (new_lease limits id (digest tenant_id) now) ≡ g r =
          same id (digest tenant_id)
          ∙ ap (λ (o : Option Resources). elim o [ none ↦ 0 | some q ↦ g q ]) set in
        ground (arith, e)

    stored_bytes-admitted :
        (u : String)
        → (stored
              (λ v. v.storage_bytes)
              u
              (admitted digest limits id (digest tenant_id) session_id now db).session_usage
            ≡ stored (λ v. v.storage_bytes) u db.session_usage)
          × (stored
                (λ v. v.audit_bytes)
                u
                (admitted digest limits id (digest tenant_id) session_id now db).session_usage
              ≡ stored (λ v. v.audit_bytes) u db.session_usage)
    unfolding admitted
    stored_bytes-admitted u = (
      stored-register_for limits.resources (λ v. v.storage_bytes) u (λ v x n. refl) (λ t s i. refl),
      stored-register_for limits.resources (λ v. v.audit_bytes) u (λ v x n. refl) (λ t s i. refl),
    )

    tokens_today-admitted :
        (u : String)
        → tokens_today u now (admitted digest limits id (digest tenant_id) session_id now db)
          ≡ tokens_today u now db
    unfolding admitted
    tokens_today-admitted u = refl

    live-le : (f : Lease → ℕ) (u : String) → reserved f u live ≤ reserved f u db.turn_leases
    live-le f u = sum_where-delete_where-le (lease_of u) (expired now) f db.turn_leases

    -- Whoever is asked about, an admission keeps the limits; its own tenant's checks give the room.
    pub admitted-Fits :
        (r : Resources) (u : String)
        → limits.resources ≡ some r
        → Room r (digest tenant_id) now live db
        → (digest tenant_id ≢ u → Fits r u now db)
        → Fits r u now (admitted digest limits id (digest tenant_id) session_id now db)
    unfolding new_lease
    admitted-Fits r u set (tokens, storage, audit) others =
        let a =
          reserved-admitted r (λ l. l.token_reservation) (λ q. q.token_reservation_per_turn) u set
            (λ l t. refl) in
        let b =
          reserved-admitted r (λ l. l.storage_reservation) (λ q. q.storage_reservation_per_turn) u
            set (λ l t. refl) in
        let c =
          reserved-admitted r (λ l. l.audit_reservation) (λ q. q.audit_reservation_per_turn) u set
            (λ l t. refl) in
        let (s1, s2) = stored_bytes-admitted u in
        elim (Bool-cases (str_eq (digest tenant_id) u)) [
          | inl own ↦
              let e = (eq_iff (digest tenant_id) u).0 own in
              ground (arith, own, e, a, b, c, s1, s2, tokens_today-admitted u)
          | inr other ↦
              let fits = others (λ e. cc (other, (eq_iff (digest tenant_id) u).1 e)) in
              ground (
                arith,
                other,
                a,
                b,
                c,
                s1,
                s2,
                tokens_today-admitted u,
                live-le (λ l. l.token_reservation) u,
                live-le (λ l. l.storage_reservation) u,
                live-le (λ l. l.audit_reservation) u,
              )
        ]
