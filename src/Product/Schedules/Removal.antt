-- ===== src/Product/Schedules/Removal.antt =====
-- What the sweeps of the schedules delete, and when a schedule is claimed again.
use sigil_pi.Prelude.{
  ℕ, ◌+◌, ◌*◌, ◌≡◌, inl, inr, refl, ap, arith, not, String, Bool, true, false, Option, none, some,
  List, [], ◌∷◌, any, str_eq, eq_iff, eq_refl, leb, ltb, if◌then◌else◌, Bool-cases, Option-cases,
}
use sigil_pi.Prelude.Dict.{Dict, get, put, without, get-put, get-without}
use sigil_pi.Product.Schedules.{
  Entry, time_of, due, delete_keys, doomed, remove_doomed, inactive, active, of_session,
  remove_session, remove_inactive, claimed, claim_due, owned_by, completed, complete_claim, Wanted,
  key_of, written, write_entry,
}
use sigil_pi.Product.Schedules.Cardinality.{write_entry-cases}

-- No key stands twice.
abbrev pub IsUnique : Dict Entry → Type 0
IsUnique [] = Unit {0}
IsUnique ((k, e) ∷ d) = (get k d ≡ none) × IsUnique d

abbrev pub kept : (Entry → Bool) → Option Entry → Option Entry
kept p none = none
kept p (some e) = if p e then none else some e

abbrev among : String → List String → Bool
among k ks = any (λ j. str_eq j k) ks

get-delete_keys :
    (k : String) (ks : List String) (d : Dict Entry)
    → get k (delete_keys ks d) ≡ (if among k ks then none else get k d)
unfolding delete_keys
get-delete_keys k [] d = refl
get-delete_keys k (j ∷ ks) d = ground (arith, get-delete_keys k ks (without j d), get-without j k d)

-- A key that stands nowhere is not doomed.
among-doomed-none :
    (p : Entry → Bool) (k : String) (d : Dict Entry) → get k d ≡ none → among k (doomed p d) ≡ false
unfolding doomed get
among-doomed-none p k [] h = refl
among-doomed-none p k ((j, e) ∷ d) h = ground (arith, among-doomed-none p k d)

among-doomed :
    (p : Entry → Bool) (k : String) (d : Dict Entry) {e : Entry}
    → IsUnique d
    → get k d ≡ some e
    → among k (doomed p d) ≡ p e
unfolding doomed get
among-doomed p k [] u h = absurd (ground arith)
among-doomed p k ((j, e') ∷ d) {e} (alone, u) h = elim (Bool-cases (str_eq j k)) [
  | inl this ↦
      let it : e' ≡ e = ground arith in
      let gone : get k d ≡ none = rw ((eq_iff j k).0 this) at alone in
      ground (arith, among-doomed-none p k d gone, ap p it)
  | inr other ↦ ground (arith, among-doomed p k d {e = e} u)
]

pub remove_doomed_lem :
    (p : Entry → Bool) (k : String) (d : Dict Entry)
    → IsUnique d
    → get k (remove_doomed p d).1 ≡ kept p (get k d)
remove_doomed_lem p k d u = elim (Option-cases (get k d)) [
  | inl missing ↦ ground (arith, get-delete_keys k (doomed p d) d)
  | inr (e, found) ↦
      ground (arith, get-delete_keys k (doomed p d) d, among-doomed p k d {e = e} u found)
]

-- Where no key stands twice: deleting a session's schedules deletes exactly those of this tenant
-- and session.
pub remove_session_lem :
    (digest : String → String) (tenant_id session k : String) (d : Dict Entry)
    → IsUnique d
    → get k (remove_session digest tenant_id session d).1
      ≡ kept (of_session (digest tenant_id) session) (get k d)
unfolding remove_session
remove_session_lem digest tenant_id session k d u =
    remove_doomed_lem (of_session (digest tenant_id) session) k d u

-- The two tests of retention are opposite.
inactive-active :
    (legacy cutoff now : ℕ) (e : Entry)
    → inactive legacy cutoff now e ≡ not (active legacy cutoff now e)
inactive-active legacy cutoff now e = ground arith

-- Where no key stands twice: retention deletes exactly the schedules that `internal_active` does
-- not take for active.
pub remove_inactive_lem :
    (legacy cutoff now : ℕ) (k : String) (d : Dict Entry)
    → IsUnique d
    → get k (remove_inactive legacy cutoff now d).1
      ≡ kept (λ e. not (active legacy cutoff now e)) (get k d)
unfolding remove_inactive
remove_inactive_lem legacy cutoff now k d u = elim (Option-cases (get k d)) [
  | inl missing ↦ ground (arith, remove_doomed_lem (inactive legacy cutoff now) k d u)
  | inr (e, found) ↦ ground (
    arith,
    remove_doomed_lem (inactive legacy cutoff now) k d u,
    inactive-active legacy cutoff now e,
  )
]

-- A completion by the owner of the lease makes the schedule wait for its interval, and frees it: at
-- any time a claim, by anyone, succeeds exactly if the interval has passed since the completion.
pub complete_claim_lem :
    (key owner : String) (when : ℕ) (status : String) (d : Dict Entry) {e : Entry} (now : ℕ)
    (other : String) (lease_s : ℕ)
    → get key d ≡ some e
    → e.lease_owner ≡ some owner
    → (claim_due key now other lease_s (complete_claim key owner when status d).1).0 ≡ (
        if leb (when + e.every_ms * 1000) now
        then some (claimed now other lease_s (completed when status e))
        else none)
unfolding complete_claim claim_due
complete_claim_lem key owner when status d {e} now other lease_s found own =
    let mine : owned_by owner e.lease_owner ≡ true = rw own (eq_refl owner) in
    let there = get-put key key (completed when status e) d in ground (arith, eq_refl key)

claim_due_free :
    (key : String) (now : ℕ) (owner : String) (lease_s : ℕ) (d : Dict Entry) {e : Entry}
    → get key d ≡ some e
    → due e now ≡ true
    → e.lease_until ≡ none
    → (claim_due key now owner lease_s d).0 ≡ some (claimed now owner lease_s e)
unfolding claim_due
claim_due_free key now owner lease_s d {e} found ready free =
    let open_now : ltb now (time_of e.lease_until) ≡ false = rw free (ground arith) in
    rw (found, ready, open_now, claim_due)

-- A `put` over a schedule ends its lease: if the schedule is due, the next claim succeeds, whoever
-- had leased it for however long.
pub write_entry_unleases :
    (digest : String → String) (max_per_tenant : ℕ) (a : Wanted) (now : ℕ) (d : Dict Entry)
    (later : ℕ) (other : String) (lease_s : ℕ)
    → let key = key_of digest a.tenant_id a.name in
      let e = written digest a now (get key d) in
      (write_entry digest max_per_tenant a now d).0 ≡ none
      → due e later ≡ true
      → (claim_due key later other lease_s (write_entry digest max_per_tenant a now d).1).0
        ≡ some (claimed later other lease_s e)
unfolding written
write_entry_unleases digest max_per_tenant a now d later other lease_s won ready =
    let key = key_of digest a.tenant_id a.name in
    let e = written digest a now (get key d) in
    elim (write_entry-cases digest max_per_tenant a now d) [
      | inl full ↦ absurd (ground arith)
      | inr (room, done) ↦
          let found : get key (put key e d) ≡ some e =
            ground (arith, get-put key key e d, eq_refl key) in
          rw done (claim_due_free key later other lease_s (put key e d) {e = e} found ready refl)
    ]
