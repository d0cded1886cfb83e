-- ===== src/Product/Service/Capacity.antt =====
-- Capacity that is taken and given back: places at a semaphore, and leases of the quota store.
use sigil_pi.Prelude.{
  ℕ, zero, suc, ◌+◌, ◌≡◌, ◌≤◌, refl, arith, String, Option, none, some, List, ◌∷◌, ◌⊎◌, inl, inr,
  Option-cases, Bool-cases, leb, eq_iff, eq_refl,
}
use sigil_pi.Prelude.Dict.{Dict, get-put}
use sigil_pi.Prelude.Table.{
  count_where, find_where, delete_where, delete_where_absent, find_where-delete_where_absent,
}
use sigil_pi.Product.Errors.{ProductError, ok, err}
use sigil_pi.Product.Quota.{Limits, Db, Lease, lease_is, lease_of, expired}
use sigil_pi.Product.Quota.Turns.{busy, refusal_for, acquire_turn, admitted, new_lease}
use sigil_pi.Product.Concurrency.{left_for, taken, take_turn, give_back}

-- No semaphore has more left than it was created with.
abbrev pub WithinLimit : ℕ → Dict ℕ → Type 0
WithinLimit limit semaphores = (tenant_id : String) → left_for limit tenant_id semaphores ≤ limit

-- A place that was taken and given back.
taken-give_back :
    (limit v : ℕ) (t u : String) (semaphores left : Dict ℕ)
    → left_for limit t semaphores ≡ v
    → v ≤ limit
    → taken v t semaphores ≡ some left
    → left_for limit u (give_back limit t left) ≡ left_for limit u semaphores
unfolding give_back
taken-give_back limit zero t u semaphores left same within e = cc
taken-give_back limit (suc v) t u semaphores left same within e = ground (
  arith,
  get-put t t v semaphores,
  get-put t u v semaphores,
  get-put t u (v + 1) left,
  eq_iff t t,
  eq_iff t u,
)

pub left_for-give_back :
    (limit : ℕ) (t u : String) (semaphores left : Dict ℕ)
    → WithinLimit limit semaphores
    → take_turn limit t semaphores ≡ some left
    → left_for limit u (give_back limit t left) ≡ left_for limit u semaphores
unfolding take_turn
left_for-give_back limit t u semaphores left within e =
    taken-give_back limit (left_for limit t semaphores) t u semaphores left refl (within t) e

-- A lease that is written and deleted again leaves the leases that had not expired.
pub delete_where-new_lease :
    (limits : Limits) (id tenant : String) (now : ℕ) (leases : List Lease)
    → find_where (lease_is id) leases ≡ none
    → delete_where
        (lease_is id)
        (new_lease limits id tenant now ∷ delete_where (expired now) leases)
      ≡ delete_where (expired now) leases
unfolding new_lease delete_where
delete_where-new_lease limits id tenant now leases fresh = rw (eq_refl id) (
    delete_where_absent (lease_is id) _
      (find_where-delete_where_absent (lease_is id) (expired now) leases fresh))

-- An admission changes nothing where it refuses, and else writes the lease.
pub acquire_turn_cases :
    (digest : String → String) (limits : Limits) (id t : String) (session : Option String) (now : ℕ)
    (db : Db)
    → ((e : ProductError) × (acquire_turn digest limits id t session now db ≡ (err e, db)))
      ⊎ (acquire_turn digest limits id t session now db
          ≡ (ok id, admitted digest limits id (digest t) session now db))
unfolding acquire_turn
acquire_turn_cases digest limits id t session now db =
    let leases = delete_where (expired now) db.turn_leases in
    elim (Bool-cases (leb limits.max_concurrent_turns (count_where (lease_of (digest t)) leases))) [
      | inl full ↦ inl (busy, rw (full, acquire_turn) refl)
      | inr room ↦
          elim (Option-cases (refusal_for digest limits.resources (digest t) now leases db)) [
            | inl fits ↦ inr (rw (room, fits, acquire_turn) refl)
            | inr (e, refused) ↦ inl (e, rw (room, refused, acquire_turn) refl)
          ]
    ]
