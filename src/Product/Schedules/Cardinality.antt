-- ===== src/Product/Schedules/Cardinality.antt =====
-- The number of schedules that a tenant has.
use sigil_pi.Prelude.{
  ℕ, ◌+◌, ◌≤◌, ◌<◌, ◌≡◌, ◌⊎◌, inl, inr, sym, ap, subst, ◌∙◌, arith, String, Bool, true, none, some,
  [], ◌∷◌, str_eq, eq_iff, leb, if◌then◌else◌, Bool-cases, Option-cases,
}
use sigil_pi.Prelude.Dict.{Dict, get, put, get-put}
use sigil_pi.Prelude.Table.{count_where}
use sigil_pi.Product.Schedules.{
  Entry, tenant_count, is_key, key_of, Wanted, written, write_entry, schedule_quota_exceeded,
}

abbrev row_of : String → String × Entry → Bool
row_of t p = str_eq p.1.tenant_sha256 t

count-put_new :
    (t key : String) (e : Entry) (d : Dict Entry)
    → get key d ≡ none
    → tenant_count t (put key e d) ≡ tenant_count t d + (if str_eq e.tenant_sha256 t then 1 else 0)
unfolding get put count_where
count-put_new t key e [] h = omega arith
count-put_new t key e (p ∷ d) h = ground (arith, count-put_new t key e d)

count-put_found :
    (t key : String) (e : Entry) (d : Dict Entry) {old : Entry}
    → get key d ≡ some old
    → old.tenant_sha256 ≡ e.tenant_sha256
    → tenant_count t (put key e d) ≡ tenant_count t d
unfolding get put count_where
count-put_found t key e [] h same = absurd (ground arith)
count-put_found t key e (p ∷ d) {old} h same =
    ground (arith, count-put_found t key e d {old = old}, same)

-- An entry under a key of a tenant is an entry of that tenant.
abbrev pub IsKeyed : (String → String) → Dict Entry → Type 0
IsKeyed digest d =
    (tenant name : String) (e : Entry)
    → get (key_of digest tenant name) d ≡ some e
    → e.tenant_sha256 ≡ digest tenant

module _ (digest : String → String) (max_per_tenant : ℕ) where
  -- A write is refused for the quota, or puts the entry.
  pub write_entry-cases :
      (a : Wanted) (now : ℕ) (d : Dict Entry)
      → let key = key_of digest a.tenant_id a.name in
        (write_entry digest max_per_tenant a now d ≡ (some schedule_quota_exceeded, d))
        ⊎ (((is_key key d ≡ true) ⊎ (tenant_count (digest a.tenant_id) d < max_per_tenant))
            × (write_entry digest max_per_tenant a now d
                ≡ (none, put key (written digest a now (get key d)) d)))
  unfolding write_entry
  write_entry-cases a now d =
      let key = key_of digest a.tenant_id a.name in
      elim (Bool-cases (is_key key d)) [
        | inl known ↦ inr (inl known, rw known)
        | inr new ↦ elim (Bool-cases (leb max_per_tenant (tenant_count (digest a.tenant_id) d))) [
          | inl full ↦ inl (rw (new, full))
          | inr room ↦ inr (inr (ground arith), rw (new, room))
        ]
      ]

  module _
      (key_tenant : (t n t' n' : String)
        → key_of digest t n ≡ key_of digest t' n'
        → digest t ≡ digest t') where
    -- Where a key determines its tenant's digest: whatever `put` answers, its write keeps each entry
    -- under a key of its tenant, and no tenant that had at most `max_per_tenant` schedules gets more.
    pub write_entry_keeps :
        (a : Wanted) (now : ℕ) (d : Dict Entry) (t : String)
        → IsKeyed digest d
        → tenant_count t d ≤ max_per_tenant
        → IsKeyed digest (write_entry digest max_per_tenant a now d).1
          × (tenant_count t (write_entry digest max_per_tenant a now d).1 ≤ max_per_tenant)
    unfolding written
    write_entry_keeps a now d t keyed few = elim (write_entry-cases a now d) [
      | inl full ↦ rw full (keyed, few)
      | inr (room, done) ↦ rw done (put_keyed, put_few room)
    ]
      where
        key : String
        key = key_of digest a.tenant_id a.name

        e : Entry
        e = written digest a now (get key d)

        put_keyed : IsKeyed digest (put key e d)
        put_keyed tenant name e' found =
            let other_key = key_of digest tenant name in
            elim (Bool-cases (str_eq key other_key)) [
              | inl this ↦
                  let it : e ≡ e' = ground (arith, get-put key other_key e d) in
                  ap (λ (x : Entry). x.tenant_sha256) (sym it)
                  ∙ key_tenant a.tenant_id a.name tenant name ((eq_iff key other_key).0 this)
              | inr that ↦ keyed tenant name e' (ground (arith, get-put key other_key e d))
            ]

        put_few :
            ((is_key key d ≡ true) ⊎ (tenant_count (digest a.tenant_id) d < max_per_tenant))
            → tenant_count t (put key e d) ≤ max_per_tenant
        put_few room = elim (Option-cases (get key d)) [
          | inl new ↦
              let own : tenant_count (digest a.tenant_id) d < max_per_tenant = ground arith in
              elim (Bool-cases (str_eq e.tenant_sha256 t)) [
                | inl mine ↦
                    let same = (eq_iff e.tenant_sha256 t).0 mine in
                    let own_t : tenant_count t d < max_per_tenant =
                      subst (λ u. tenant_count u d < max_per_tenant) same own in
                    ground (arith, count-put_new t key e d new)
                | inr not_mine ↦ ground (arith, count-put_new t key e d new)
              ]
          | inr (old, found) ↦ omega (
            arith,
            few,
            count-put_found t key e d {old = old} found (keyed a.tenant_id a.name old found),
          )
        ]
