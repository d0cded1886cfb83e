-- ===== src/Product/Quota/Admission.antt =====
-- What `acquire_turn` guarantees to every tenant, and its rollback.
use sigil_pi.Prelude.{ℕ, ◌≤◌, ◌≡◌, refl, String, Option, some, arith, inl, inr, eq_iff}
use sigil_pi.Prelude.Table.{count_where, count_where-delete_where-le}
use sigil_pi.Product.Errors.{ProductError, ok, err}
use sigil_pi.Product.Quota.{Db, Resources, Limits, lease_of, expired}
use sigil_pi.Product.Quota.Turns.{new_lease, admitted, acquire_turn}
use sigil_pi.Product.Quota.Bounds.{Fits, acquired-cases, live, refusal_for-Room, admitted-Fits}

module _ (digest : String → String) (limits : Limits) (id tenant_id : String)
    (session_id : Option String) (now : ℕ) (db : Db) where
  -- A turn that is admitted leaves its tenant within all three resource limits, counting its own
  -- reservation and those of every other running turn, whatever the database held before.
  pub acquire_turn-Fits :
      (r : Resources)
      → limits.resources ≡ some r
      → (acquire_turn digest limits id tenant_id session_id now db).0 ≡ ok id
      → Fits r (digest tenant_id) now (acquire_turn digest limits id tenant_id session_id now db).1
  acquire_turn-Fits r set won = elim (acquired-cases digest limits id tenant_id session_id now db) [
    | inl (e, lost) ↦ absurd (ground arith)
    | inr (room, none_refuses, e) ↦
        let checks =
          refusal_for-Room digest limits id tenant_id session_id now db limits.resources r
            (digest tenant_id) (live digest limits id tenant_id session_id now db) set
            none_refuses in
        rw e (
          admitted-Fits digest limits id tenant_id session_id now db r (digest tenant_id) set checks
            (λ ne. absurd (ne refl)))
  ]

  -- Whatever the call answers, a tenant that was within its limits still is, and this tenant too.
  pub acquire_turn_keeps-Fits :
      (r : Resources) (u : String)
      → limits.resources ≡ some r
      → Fits r u now db
      → Fits r u now (acquire_turn digest limits id tenant_id session_id now db).1
  acquire_turn_keeps-Fits r u set fits =
      elim (acquired-cases digest limits id tenant_id session_id now db) [
        | inl (e, lost) ↦ rw lost fits
        | inr (room, none_refuses, e) ↦
            let checks =
              refusal_for-Room digest limits id tenant_id session_id now db limits.resources r
                (digest tenant_id) (live digest limits id tenant_id session_id now db) set
                none_refuses in
            rw e (
              admitted-Fits digest limits id tenant_id session_id now db r u set checks
                (λ ne. fits))
      ]

  -- A call that raises changes nothing, not even the leases that it found expired.
  pub acquire_turn_rollback :
      (e : ProductError)
      → (acquire_turn digest limits id tenant_id session_id now db).0 ≡ err e
      → (acquire_turn digest limits id tenant_id session_id now db).1 ≡ db
  acquire_turn_rollback e lost =
      elim (acquired-cases digest limits id tenant_id session_id now db) [
        | inl (e', same) ↦ ground arith
        | inr (room, none_refuses, won) ↦ absurd (ground arith)
      ]

  -- Whatever the call answers, a tenant that held at most `max_concurrent_turns` leases still does,
  -- and this tenant too.
  pub acquire_turn_keeps_concurrency :
      (u : String)
      → count_where (lease_of u) db.turn_leases ≤ limits.max_concurrent_turns
      → count_where
          (lease_of u)
          (acquire_turn digest limits id tenant_id session_id now db).1.turn_leases
        ≤ limits.max_concurrent_turns
  unfolding admitted count_where new_lease
  acquire_turn_keeps_concurrency u h =
      elim (acquired-cases digest limits id tenant_id session_id now db) [
        | inl (e, lost) ↦ rw lost h
        | inr (room, none_refuses, won) ↦ rw won (
            ground (
              arith,
              room,
              eq_iff (digest tenant_id) u,
              count_where-delete_where-le (lease_of u) (expired now) db.turn_leases,
            ))
      ]
