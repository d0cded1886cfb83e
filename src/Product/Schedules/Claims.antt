-- ===== src/Product/Schedules/Claims.antt =====
-- The lease of a schedule: one scheduler at a time, over any run of the store's operations.
use sigil_pi.Prelude.{
  ℕ, ◌+◌, ◌*◌, ◌<◌, ◌≡◌, ◌⊎◌, inl, inr, sym, ap, arith, String, Bool, true, false, none, some, List,
  [], ◌∷◌, Each, str_eq, eq_iff, eq_refl, ltb, Bool-cases, Option-cases,
}
use sigil_pi.Prelude.Dict.{Dict, get, put, without, get-put, get-without}
use sigil_pi.Product.Schedules.Cardinality.{write_entry-cases}
use sigil_pi.Product.Schedules.{
  Entry, time_of, due, delete_keys, doomed, remove_doomed, key_of, Wanted, write_entry,
  remove_schedule, mark_run, claimed, claim_due, owned_by, completed, complete_claim, is_key,
}

-- The transactions that other threads and processes run.
pub data Event : Type 0 where
  claims : String → ℕ → String → ℕ → Event
  completes : String → String → ℕ → String → Event
  marks : String → ℕ → String → Event
  writes : Wanted → ℕ → Event
  removes : String → String → Event
  sweeps : (Entry → Bool) → Event

-- A claim changes nothing and gets nothing, or leases an entry that has no running lease.
pub claim_due-cases :
    (key : String) (now : ℕ) (owner : String) (lease_s : ℕ) (d : Dict Entry)
    → (claim_due key now owner lease_s d ≡ (none, d))
      ⊎ ((e : Entry) × (get key d ≡ some e)
          × (ltb now (time_of e.lease_until) ≡ false)
          × (claim_due key now owner lease_s d
              ≡ (some (claimed now owner lease_s e), put key (claimed now owner lease_s e) d)))
unfolding claim_due
claim_due-cases key now owner lease_s d = elim (Option-cases (get key d)) [
  | inl missing ↦ inl (rw (missing, claim_due))
  | inr (e, found) ↦ elim (Bool-cases (due e now)) [
    | inr later ↦ inl (rw (found, later, claim_due))
    | inl ready ↦ elim (Bool-cases (ltb now (time_of e.lease_until))) [
      | inl leased ↦ inl (rw (found, ready, leased, claim_due))
      | inr free ↦ inr (e, found, free, rw (found, ready, free, claim_due))
    ]
  ]
]

-- A completion changes nothing, or ends its owner's lease.
pub complete_claim-cases :
    (key owner : String) (when : ℕ) (status : String) (d : Dict Entry)
    → (complete_claim key owner when status d ≡ (false, d))
      ⊎ ((e : Entry) × (get key d ≡ some e)
          × (owned_by owner e.lease_owner ≡ true)
          × (complete_claim key owner when status d ≡ (true, put key (completed when status e) d)))
unfolding complete_claim
complete_claim-cases key owner when status d = elim (Option-cases (get key d)) [
  | inl missing ↦ inl (rw (missing, complete_claim))
  | inr (e, found) ↦ elim (Bool-cases (owned_by owner e.lease_owner)) [
    | inr foreign ↦ inl (rw (found, foreign, complete_claim))
    | inl own ↦ inr (e, found, own, rw (found, own, complete_claim))
  ]
]

module _ (digest : String → String) (max_per_tenant : ℕ) where
  abbrev pub after : Event → Dict Entry → Dict Entry
  after (claims key now owner lease_s) d = (claim_due key now owner lease_s d).1
  after (completes key owner when status) d = (complete_claim key owner when status d).1
  after (marks key when status) d = mark_run key when status d
  after (writes a now) d = (write_entry digest max_per_tenant a now d).1
  after (removes tenant_id name) d = (remove_schedule digest tenant_id name d).1
  after (sweeps p) d = (remove_doomed p d).1

  abbrev pub run : List Event → Dict Entry → Dict Entry
  run [] d = d
  run (e ∷ es) d = run es (after e d)

  module _ (key owner : String) (until : ℕ) where
    -- The schedule is gone, or has this lease.
    abbrev pub Held : Dict Entry → Type 0
    Held d =
        (e : Entry)
        → get key d ≡ some e
        → (e.lease_owner ≡ some owner) × (e.lease_until ≡ some until)

    -- Not the end of the lease: no claim after its time, no completion by its owner, and no `put`
    -- over the schedule.
    abbrev pub Leaves : Event → Type 0
    Leaves (claims k now o lease_s) = (str_eq k key ≡ false) ⊎ (now < until)
    Leaves (completes k o when status) = (str_eq k key ≡ false) ⊎ (str_eq owner o ≡ false)
    Leaves (marks k when status) = Unit {0}
    Leaves (writes a now) = str_eq (key_of digest a.tenant_id a.name) key ≡ false
    Leaves (removes tenant_id name) = Unit {0}
    Leaves (sweeps p) = Unit {0}

    put-Held :
        (k : String) (e : Entry) (d : Dict Entry)
        → ((str_eq k key ≡ true) → (e.lease_owner ≡ some owner) × (e.lease_until ≡ some until))
        → Held d
        → Held (put k e d)
    put-Held k e d same h e' found = elim (Bool-cases (str_eq k key)) [
      | inl this ↦ ground (arith, get-put k key e d, same this)
      | inr other ↦ h e' (ground (arith, get-put k key e d))
    ]

    without-Held : (k : String) (d : Dict Entry) → Held d → Held (without k d)
    without-Held k d h e found = h e (ground (arith, get-without k key d))

    delete_keys-Held : (ks : List String) (d : Dict Entry) → Held d → Held (delete_keys ks d)
    unfolding delete_keys
    delete_keys-Held [] d h = h
    delete_keys-Held (k ∷ ks) d h = delete_keys-Held ks (without k d) (without-Held k d h)

    -- What `Held` says of the entry at another spelling of the key.
    at_key :
        (k : String) (d : Dict Entry) (e : Entry)
        → Held d
        → get k d ≡ some e
        → str_eq k key ≡ true
        → (e.lease_owner ≡ some owner) × (e.lease_until ≡ some until)
    at_key k d e h found same = h e (rw ((eq_iff k key).0 same) at found)

    claim_due-Held :
        (k : String) (now : ℕ) (o : String) (lease_s : ℕ) (d : Dict Entry)
        → (str_eq k key ≡ false) ⊎ (now < until)
        → Held d
        → Held (claim_due k now o lease_s d).1
    claim_due-Held k now o lease_s d side h = elim (claim_due-cases k now o lease_s d) [
      | inl lost ↦ rw lost h
      | inr (e, found, free, won) ↦ rw won (
          put-Held k (claimed now o lease_s e) d
            (λ same. elim side [
              | inl other ↦ cc (same, other)
              | inr early ↦
                  let leased = (at_key k d e h found same).1 in
                  let late : ltb now until ≡ false = rw leased at free in absurd (ground arith)
            ])
            h)
    ]

    complete_claim-Held :
        (k o : String) (when : ℕ) (status : String) (d : Dict Entry)
        → (str_eq k key ≡ false) ⊎ (str_eq owner o ≡ false)
        → Held d
        → Held (complete_claim k o when status d).1
    complete_claim-Held k o when status d side h = elim (complete_claim-cases k o when status d) [
      | inl lost ↦ rw lost h
      | inr (e, found, own, done) ↦ rw done (
          put-Held k (completed when status e) d
            (λ same. elim side [
              | inl other ↦ cc (same, other)
              | inr differ ↦
                  let mine = (at_key k d e h found same).0 in
                  let theirs : str_eq owner o ≡ true = rw mine at own in cc (theirs, differ)
            ])
            h)
    ]

    mark_run-Held :
        (k : String) (when : ℕ) (status : String) (d : Dict Entry)
        → Held d
        → Held (mark_run k when status d)
    unfolding mark_run
    mark_run-Held k when status d h = elim (Option-cases (get k d)) [
      | inl missing ↦ rw (missing, mark_run) h
      | inr (e, found) ↦ rw (found, mark_run) (put-Held k _ d (λ same. at_key k d e h found same) h)
    ]

    write_entry-Held :
        (a : Wanted) (now : ℕ) (d : Dict Entry)
        → str_eq (key_of digest a.tenant_id a.name) key ≡ false
        → Held d
        → Held (write_entry digest max_per_tenant a now d).1
    write_entry-Held a now d other h = elim (write_entry-cases digest max_per_tenant a now d) [
      | inl full ↦ rw full h
      | inr (room, done) ↦
          rw done (put-Held (key_of digest a.tenant_id a.name) _ d (λ same. cc (same, other)) h)
    ]

    remove_schedule-Held :
        (tenant_id name : String) (d : Dict Entry)
        → Held d
        → Held (remove_schedule digest tenant_id name d).1
    unfolding remove_schedule
    remove_schedule-Held tenant_id name d h =
        let k = key_of digest tenant_id name in
        elim (Bool-cases (is_key k d)) [
          | inl known ↦ rw (known, remove_schedule) (without-Held k d h)
          | inr unknown ↦ rw (unknown, remove_schedule) h
        ]

    after-Held : (e : Event) (d : Dict Entry) → Leaves e → Held d → Held (after e d)
    after-Held (claims k now o lease_s) d side h = claim_due-Held k now o lease_s d side h
    after-Held (completes k o when status) d side h = complete_claim-Held k o when status d side h
    after-Held (marks k when status) d side h = mark_run-Held k when status d h
    after-Held (writes a now) d other h = write_entry-Held a now d other h
    after-Held (removes tenant_id name) d side h = remove_schedule-Held tenant_id name d h
    after-Held (sweeps p) d side h = delete_keys-Held (doomed p d) d h

    run-Held : (es : List Event) (d : Dict Entry) → Each Leaves es → Held d → Held (run es d)
    run-Held [] d side h = h
    run-Held (e ∷ es) d (one, more) h = run-Held es (after e d) more (after-Held e d one h)

  -- A claim that succeeds leaves its lease.
  claimed-Held :
      (key owner : String) (now lease_s : ℕ) (d : Dict Entry) {e : Entry}
      → (claim_due key now owner lease_s d).0 ≡ some e
      → Held key owner (now + lease_s * 1000000) (claim_due key now owner lease_s d).1
  claimed-Held key owner now lease_s d {e} won e' found =
      elim (claim_due-cases key now owner lease_s d) [
        | inl lost ↦ absurd (ground arith)
        | inr (e0, here, free, done) ↦
            let found' = rw done at found in
            let it : claimed now owner lease_s e0 ≡ e' =
              ground (arith, get-put key key (claimed now owner lease_s e0) d, eq_refl key) in
            (ap (λ (x : Entry). x.lease_owner) (sym it), ap (λ (x : Entry). x.lease_until) (sym it))
      ]

  refused_before :
      (key owner other : String) (until later lease_s : ℕ) (d : Dict Entry)
      → Held key owner until d
      → later < until
      → (claim_due key later other lease_s d).0 ≡ none
  refused_before key owner other until later lease_s d h early =
      elim (claim_due-cases key later other lease_s d) [
        | inl lost ↦ ap (λ r. r.0) lost
        | inr (e, found, free, won) ↦
            let late : ltb later until ≡ false = rw (h e found).1 at free in absurd (ground arith)
      ]

  -- A claim that succeeds is exclusive: until its lease ends, whatever the other threads and
  -- processes do that is not a completion by its owner and not a `put` over this schedule, nobody
  -- claims the schedule, the owner included.
  pub claim_due_exclusive :
      (key owner : String) (now lease_s : ℕ) (d : Dict Entry) {e : Entry} (es : List Event)
      (other : String) (later lease_s' : ℕ)
      → (claim_due key now owner lease_s d).0 ≡ some e
      → Each (Leaves key owner (now + lease_s * 1000000)) es
      → later < now + lease_s * 1000000
      → (claim_due key later other lease_s' (run es (claim_due key now owner lease_s d).1)).0 ≡ none
  claim_due_exclusive key owner now lease_s d es other later lease_s' won side early =
      refused_before key owner other (now + lease_s * 1000000) later lease_s' _
        (run-Held key owner (now + lease_s * 1000000) es _ side
          (claimed-Held key owner now lease_s d won))
        early
