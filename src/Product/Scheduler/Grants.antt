-- ===== src/Product/Scheduler/Grants.antt =====
-- Which turns a round of `ProductScheduler.tick` runs.
use sigil_pi.Prelude.{
  ℕ, ◌+◌, ◌≡◌, refl, String, Bool, true, false, Option, none, some, List, [], all, Each, ◌⊎◌, inl,
  inr, if_both,
}
use sigil_pi.Prelude.Dict.{Dict, get}
use sigil_pi.Product.Errors.{Reply, ok, err}
use sigil_pi.Product.Auth.{Principal, includes, policy}
use sigil_pi.Product.Quota.{Db, Limits}
use sigil_pi.Product.Schedules.{Entry, claim_due}
use sigil_pi.Product.Scheduler.{
  Shared, Host, Config, Call, Run, tools_of, after_lease, run_turn, run_leased, run_granted,
  run_current, run_locked, complete, after_claim, tick_key,
}

module _ {W : Type 0} (host : Host W) (config : Config) where
  -- The call is the entry's, under a policy that is active at `now`, that may write schedules, and
  -- whose tools the agent has: they are the call's.
  pub record IsGranted (now : ℕ) (o : Option Entry) (c : Call) : Type 0 where
    pub entry : Entry
    pub principal : Principal
    pub current : o ≡ some entry
    pub active :
        policy host.digest entry.tenant_sha256 entry.principal now config.credentials
        ≡ some principal
    pub may_write : includes principal.scopes "schedules:write" ≡ true
    pub known : all (includes config.manifest) c.tools ≡ true
    pub tools : c.tools ≡ tools_of config.manifest principal
    pub session : c.session ≡ entry.internal_session
    pub message : c.message ≡ entry.message

  abbrev pub Granted : ℕ → Option Entry → Run W → Type 0
  Granted now o r = Each (IsGranted now o) r.1

  module _ (now : ℕ) (o : Option Entry) (e : Entry) (deadline : ℕ) where
    after_lease-Granted :
        (limits : Limits) (id : String) (tools : List String) (s : Shared) (w : W)
        (answer : Reply String × Db)
        → ((c : Call)
            → c.session ≡ e.internal_session
            → c.message ≡ e.message
            → c.tools ≡ tools
            → IsGranted now o c)
        → Granted now o (after_lease host config limits id e tools deadline s w answer)
    unfolding run_turn
    after_lease-Granted limits id tools s w (err refusal, db) grant = tt
    after_lease-Granted limits id tools s w (ok _, db) grant = (grant _ refl refl refl, tt)

    run_leased-Granted :
        (q : Option Limits) (p : Principal) (tools : List String) (s : Shared) (w : W)
        → ((c : Call)
            → c.session ≡ e.internal_session
            → c.message ≡ e.message
            → c.tools ≡ tools
            → IsGranted now o c)
        → Granted now o (run_leased host config q p e tools deadline s w)
    unfolding run_leased run_turn
    run_leased-Granted none p tools s w grant = (grant _ refl refl refl, tt)
    run_leased-Granted (some limits) p tools s w grant =
        after_lease-Granted limits _ tools s _ _ grant

    run_granted-Granted :
        (q : Option Principal) (s : Shared) (w : W)
        → o ≡ some e
        → policy host.digest e.tenant_sha256 e.principal now config.credentials ≡ q
        → Granted now o (run_granted host config q e deadline s w)
    unfolding run_granted
    run_granted-Granted none s w current active = tt
    run_granted-Granted (some p) s w current active =
        if_both (λ (r : Run W). Granted now o r) (includes p.scopes "schedules:write")
          (λ may.
            if_both (λ (r : Run W). Granted now o r)
              (all (includes config.manifest) (tools_of config.manifest p))
              (λ known.
                run_leased-Granted config.quota p (tools_of config.manifest p) s w
                  (λ c session message tools. record {
                    entry = e;
                    principal = p;
                    current = current;
                    active = active;
                    may_write = may;
                    known = rw tools known;
                    tools = tools;
                    session = session;
                    message = message;
                  }))
              (λ unknown. tt))
          (λ may_not. tt)

  run_current-Granted :
      (o : Option Entry) (deadline : ℕ) (s : Shared) (w : W)
      → Granted (host.time w).0 o (run_current host config o deadline s w)
  unfolding run_current
  run_current-Granted none deadline s w = tt
  run_current-Granted (some e) deadline s w =
      run_granted-Granted (host.time w).0 (some e) e deadline _ s _ refl refl

  run_locked-Granted :
      (key session : String) (deadline : ℕ) (held : Bool × Shared × W)
      → Granted
          (host.time held.2).0
          (get key held.1.entries)
          (run_locked host config key session deadline held)
  unfolding run_locked
  run_locked-Granted key session deadline (false, s, w) = tt
  run_locked-Granted key session deadline (true, s, w) =
      run_current-Granted (get key s.entries) deadline s w

  -- The wait for the lock, where `claim_due` answers with an entry: the stores and the world after it.
  abbrev pub held_for : Entry → Dict Entry → Shared → W → Bool × Shared × W
  held_for e entries s w =
      let (now, w1) = host.monotonic w in
      host.hold e.internal_session (now + config.turn_deadline) (record s { entries = entries }) w1

  -- The wall clock's reading right after that wait.
  abbrev pub checked_at : Entry → Dict Entry → Shared → W → ℕ
  checked_at e entries s w = (host.time (held_for e entries s w).2).0

  module _ (key : String) (s : Shared) (w : W) where
    after_claim_cases :
        (claim : Option Entry × Dict Entry)
        → ((claim.0 ≡ none) × ((after_claim host config key claim s w).0 ≡ []))
          ⊎ ((e : Entry) × (claim.0 ≡ some e)
              × Each
                  (IsGranted
                    (checked_at e claim.1 s w)
                    (get key (held_for e claim.1 s w).1.entries))
                  (after_claim host config key claim s w).0)
    unfolding after_claim complete
    after_claim_cases (none, entries) = inl (refl, refl)
    after_claim_cases (some e, entries) =
        inr (e, refl, run_locked-Granted key e.internal_session _ _)

  -- A round calls the agent only for an entry that it has claimed and that is still there under the
  -- session's lock, with its session and message, and only where the credentials have a policy of the
  -- entry's tenant and principal that is active at the clock's reading right after the lock is taken,
  -- that may write schedules and whose tools are all known; the call's tools are the policy's.
  pub tick_key-IsGranted :
      (now : ℕ) (key : String) (s : Shared) (w : W)
      → let (claimed, entries) = claim_due key now config.owner config.lease_s s.entries in
        ((claimed ≡ none) × ((tick_key host config now key s w).0 ≡ []))
        ⊎ ((e : Entry) × (claimed ≡ some e)
            × Each
                (IsGranted (checked_at e entries s w) (get key (held_for e entries s w).1.entries))
                (tick_key host config now key s w).0)
  unfolding tick_key
  tick_key-IsGranted now key s w =
      after_claim_cases key s w (claim_due key now config.owner config.lease_s s.entries)
