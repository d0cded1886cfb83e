-- ===== src/Product/Scheduler/Completion.antt =====
-- No claim outlives its tick.
use sigil_pi.Prelude.{
  ℕ, ◌≡◌, refl, sym, arith, String, Bool, true, false, Option, none, some, List, [], ◌∷◌, all,
  if_both, eq_iff, eq_refl, ap, ◌∙◌,
}
use sigil_pi.Prelude.Dict.{Dict, get, get-put}
use sigil_pi.Product.Errors.{Reply, ok, err}
use sigil_pi.Product.Auth.{Principal, includes, policy}
use sigil_pi.Product.Quota.{Db, Limits}
use sigil_pi.Product.Service.{Footprint}
use sigil_pi.Product.Schedules.{Entry, claim_due, complete_claim, owned_by, claimed, completed}
use sigil_pi.Product.Scheduler.{
  Shared, Host, Config, Call, Run, tools_of, release, after_lease, run_turn, run_leased,
  run_granted, run_current, run_locked, complete, after_claim, tick_key, tick_keys, tick, discard,
}

-- The entry has a lease of the owner.
unfoldable pub leased_by : String → String → Dict Entry → Bool
leased_by owner key entries = elim (get key entries) [
  | none ↦ false
  | some e ↦ owned_by owner e.lease_owner
]

abbrev pub NoneLeased : String → Dict Entry → Type 0
NoneLeased owner entries = (k : String) → leased_by owner k entries ≡ false

abbrev LeasedOnly : String → String → Dict Entry → Type 0
LeasedOnly owner key entries = (k : String) → leased_by owner k entries ≡ true → key ≡ k

abbrev pub NoMoreLeased : String → Dict Entry → Dict Entry → Type 0
NoMoreLeased owner entries entries' =
    (k : String) → leased_by owner k entries' ≡ true → leased_by owner k entries ≡ true

claim_due-LeasedOnly :
    (key : String) (now : ℕ) (owner : String) (lease_s : ℕ) (entries : Dict Entry)
    → NoneLeased owner entries
    → LeasedOnly owner key (claim_due key now owner lease_s entries).1
unfolding claim_due leased_by
claim_due-LeasedOnly key now owner lease_s entries free k h = grind (
  arith,
  free k,
  eq_iff key k,
  eq_refl owner,
  λ (e : Entry). get-put key k (claimed now owner lease_s e) entries,
)

claim_due-none :
    (key : String) (now : ℕ) (owner : String) (lease_s : ℕ) (entries : Dict Entry)
    → NoneLeased owner entries
    → (claim_due key now owner lease_s entries).0 ≡ none
    → NoneLeased owner (claim_due key now owner lease_s entries).1
unfolding claim_due
claim_due-none key now owner lease_s entries free e k = grind (arith, free k)

complete_claim-NoneLeased :
    (key owner : String) (when : ℕ) (status : String) (entries : Dict Entry)
    → LeasedOnly owner key entries
    → NoneLeased owner (complete_claim key owner when status entries).1
unfolding complete_claim leased_by
complete_claim-NoneLeased key owner when status entries only k =
    grind
      (arith, only k, eq_iff key k, λ (e : Entry). get-put key k (completed when status e) entries)

-- A key that was not there is gone again.
discard-cons : (key : String) (ks : List String) → includes ks key ≡ false → discard key ks ≡ ks
unfolding discard
discard-cons key [] e = refl
discard-cons key (k ∷ ks) e = ground (arith, eq_iff k key, eq_iff key k, discard-cons key ks)

discard-cons_self :
    (key : String) (ks : List String) → includes ks key ≡ false → discard key (key ∷ ks) ≡ ks
unfolding discard
discard-cons_self key ks e = rw (eq_refl key) (discard-cons key ks e)

module _ {W : Type 0} (host : Host W) (config : Config) where
  -- What other threads, and the turn, never do: write a lease of this scheduler, whose name holds a
  -- fresh `uuid4`.
  pub record Others : Type 0 where
    pub hold :
        (session : String) (deadline : ℕ) (s : Shared) (w : W)
        → NoMoreLeased config.owner s.entries (host.hold session deadline s w).1.entries
    pub turn :
        (session message : String) (tools : List String) (deadline : ℕ) (s : Shared) (w : W)
        → NoMoreLeased config.owner s.entries
            (host.turn session message tools deadline s w).1.entries

  module _ (others : Others) where
    abbrev Keeps : Shared → Run W → Type 0
    Keeps s r = NoMoreLeased config.owner s.entries r.2.entries

    entries-release :
        (o : Option (Limits × String)) (session : String) (usage : Option (ℕ × ℕ))
        (f : Option Footprint) (s : Shared) (w : W)
        → (release host config o session usage f s w).0.entries ≡ s.entries
    unfolding release
    entries-release none session usage f s w = refl
    entries-release (some (limits, id)) session usage f s w = refl

    module _ (e : Entry) (deadline : ℕ) where
      run_turn-Keeps :
          (o : Option (Limits × String)) (tools : List String) (s : Shared) (w : W)
          → Keeps s (run_turn host config o e tools deadline s w)
      unfolding run_turn
      run_turn-Keeps o tools s w k h =
          others.turn e.internal_session e.message tools deadline s w k
            (ap (leased_by config.owner k) (sym (entries-release o _ _ _ _ _)) ∙ h)

      after_lease-Keeps :
          (limits : Limits) (id : String) (tools : List String) (s : Shared) (w : W)
          (answer : Reply String × Db)
          → Keeps s (after_lease host config limits id e tools deadline s w answer)
      after_lease-Keeps limits id tools s w (err refusal, db) k h = h
      after_lease-Keeps limits id tools s w (ok _, db) k h =
          run_turn-Keeps (some (limits, id)) tools (record s { db = db }) w k h

      run_leased-Keeps :
          (q : Option Limits) (p : Principal) (tools : List String) (s : Shared) (w : W)
          → Keeps s (run_leased host config q p e tools deadline s w)
      unfolding run_leased
      run_leased-Keeps none p tools s w = run_turn-Keeps none tools s w
      run_leased-Keeps (some limits) p tools s w = after_lease-Keeps limits _ tools s _ _

      run_granted-Keeps :
          (q : Option Principal) (s : Shared) (w : W)
          → Keeps s (run_granted host config q e deadline s w)
      unfolding run_granted
      run_granted-Keeps none s w = λ k h. h
      run_granted-Keeps (some p) s w =
          if_both (Keeps s) (includes p.scopes "schedules:write")
            (λ may.
              if_both (Keeps s) (all (includes config.manifest) (tools_of config.manifest p))
                (λ known. run_leased-Keeps config.quota p (tools_of config.manifest p) s w)
                (λ unknown k h. h))
            (λ may_not k h. h)

    run_current-Keeps :
        (o : Option Entry) (deadline : ℕ) (s : Shared) (w : W)
        → Keeps s (run_current host config o deadline s w)
    unfolding run_current
    run_current-Keeps none deadline s w = λ k h. h
    run_current-Keeps (some e) deadline s w =
        run_granted-Keeps e deadline
          (policy host.digest e.tenant_sha256 e.principal (host.time w).0 config.credentials) s
          (host.time w).1

    run_locked-Keeps :
        (key session : String) (deadline : ℕ) (held : Bool × Shared × W)
        → Keeps held.1 (run_locked host config key session deadline held)
    unfolding run_locked
    run_locked-Keeps key session deadline (false, s, w) = λ k h. h
    run_locked-Keeps key session deadline (true, s, w) =
        run_current-Keeps (get key s.entries) deadline s w

    after_claim-NoneLeased :
        (key : String) (claim : Option Entry × Dict Entry) (s : Shared) (w : W)
        → (claim.0 ≡ none → NoneLeased config.owner claim.1)
        → LeasedOnly config.owner key claim.1
        → NoneLeased config.owner (after_claim host config key claim s w).1.entries
    unfolding after_claim complete
    after_claim-NoneLeased key (none, entries) s w unclaimed only = unclaimed refl
    after_claim-NoneLeased key (some e, entries) s w unclaimed only =
        complete_claim-NoneLeased key config.owner _ _ _ (λ k h. only k (
          others.hold _ _ (record s { entries = entries }) _ k
            (run_locked-Keeps key e.internal_session _ _ k h)))

    tick_key-NoneLeased :
        (now : ℕ) (key : String) (s : Shared) (w : W)
        → NoneLeased config.owner s.entries
        → NoneLeased config.owner (tick_key host config now key s w).1.entries
    unfolding tick_key
    tick_key-NoneLeased now key s w free =
        after_claim-NoneLeased key _ s w
          (claim_due-none key now config.owner config.lease_s s.entries free)
          (claim_due-LeasedOnly key now config.owner config.lease_s s.entries free)

    -- After the keys of a tick no entry is leased to the scheduler, and its running keys are as before.
    abbrev pub IsIdle : List String → List Call × List String × Shared × W → Type 0
    IsIdle running t = NoneLeased config.owner t.2.entries × (t.1 ≡ running)

    tick_keys-IsIdle :
        (now : ℕ) (running keys : List String) (s : Shared) (w : W)
        → NoneLeased config.owner s.entries
        → IsIdle running (tick_keys host config now running keys s w)
    unfolding tick_keys
    tick_keys-IsIdle now running [] s w free = (free, refl)
    tick_keys-IsIdle now running (key ∷ keys) s w free =
        if_both (IsIdle running) (includes running key)
          (λ skipped. tick_keys-IsIdle now running keys s w free)
          (λ runs.
            let h =
              tick_keys-IsIdle now (discard key (key ∷ running)) keys
                (tick_key host config now key s w).1 (tick_key host config now key s w).2
                (tick_key-NoneLeased now key s w free) in
            (h.0, h.1 ∙ discard-cons_self key running runs))

    -- Whatever the turns of a tick come to, and whatever other threads do meanwhile, a tick that starts
    -- with no lease of its scheduler in the store ends with none, and with the keys that were running.
    pub tick-IsIdle :
        (running : List String) (s : Shared) (w : W)
        → NoneLeased config.owner s.entries
        → IsIdle running (tick host config running s w)
    unfolding tick
    tick-IsIdle running s w free = tick_keys-IsIdle _ running _ s _ free
