-- ===== src/Agent/Forge/Audited.antt =====
-- Each guest execution of a session has its record, and the lock is released.
use sigil_pi.Prelude.{
  ℕ, ◌-◌, ◌≡◌, refl, sym, String, Bool, true, false, Option, none, some, List, [], ◌∷◌, ◌++◌, ap,
  ◌∙◌, leb, if_both, map,
}
use sigil_pi.Agent.Forge.{
  Request, Record, Ran, finished, refused, broke, Forged, Host, State, release, recorded, broken,
  past, after_run, execute, within, take_lock, locked, forge,
}
use mathlib.Core.List.{map-append}

abbrev pub request_of : Record → Request
request_of r = r.request

-- Every run of the runtime has its record, in order, and nothing holds the lock.
pub record IsAudited {W : Type 0} (s : State W) : Type 0 where
  pub complete : map request_of s.audit ≡ s.calls
  pub free : s.held ≡ false

module _ {W : Type 0} (host : Host W) (session : String) where
  complete_next :
      (s : State W) (kind : String) (r : Request) (out err : Option (List ℕ)) (calls : List Request)
      → map request_of s.audit ≡ calls
      → map request_of (recorded host (some session) kind r out err s).audit ≡ calls ++ r ∷ []
  complete_next s kind r out err calls h =
      map-append request_of s.audit _ ∙ ap (λ cs. cs ++ r ∷ []) h

  broken-IsAudited :
      (kind : String) (r : Request) (calls : List Request) (x : Bool × State W)
      → map request_of x.1.audit ≡ calls
      → x.1.calls ≡ calls ++ r ∷ []
      → IsAudited (broken host (some session) kind r x).1
  broken-IsAudited kind r calls (true, s) h e = record {
    complete = complete_next s kind r _ _ calls h ∙ sym e;
    free = refl;
  }
  broken-IsAudited kind r calls (false, s) h e = record {
    complete = complete_next s kind r _ _ calls h ∙ sym e;
    free = refl;
  }

  after_run-IsAudited :
      (deadline : Option ℕ) (kind : String) (r : Request) (calls : List Request) (x : Ran × State W)
      → map request_of x.1.audit ≡ calls
      → x.1.calls ≡ calls ++ r ∷ []
      → IsAudited (after_run host deadline (some session) kind r x).1
  unfolding after_run
  after_run-IsAudited deadline kind r calls (finished out, s) h e = record {
    complete = complete_next (release s) kind r _ _ calls h ∙ sym e;
    free = refl;
  }
  after_run-IsAudited deadline kind r calls (refused code message, s) h e = record {
    complete = complete_next (release s) kind r _ _ calls h ∙ sym e;
    free = refl;
  }
  after_run-IsAudited none kind r calls (broke, s) h e =
      broken-IsAudited kind r calls (false, s) h e
  after_run-IsAudited (some d) kind r calls (broke, s) h e =
      broken-IsAudited kind r calls (past host (some d) s) h e

  within-IsAudited :
      (deadline : Option ℕ) (kind : String) (r : Request) (s : State W)
      → map request_of s.audit ≡ s.calls
      → IsAudited (within host deadline (some session) kind r s).1
  unfolding within execute
  within-IsAudited none kind r s h =
      after_run-IsAudited none kind r s.calls (execute host none r s) h refl
  within-IsAudited (some d) kind r s h =
      if_both (λ (x : Forged × State W). IsAudited x.1) (leb d (host.monotonic s.world).0)
        (λ late. record { complete = h; free = refl })
        (λ early.
          after_run-IsAudited (some d) kind r s.calls
            (execute host (some (d - (host.monotonic s.world).0)) r
              (record s { world = (host.monotonic s.world).1 }))
            h refl)

  locked-IsAudited :
      (started : ℕ) (deadline : Option ℕ) (kind : String) (r : Request) (x : Bool × State W)
      → map request_of x.1.audit ≡ x.1.calls
      → (x.0 ≡ false → x.1.held ≡ false)
      → IsAudited (locked host started deadline (some session) kind r x).1
  unfolding locked
  locked-IsAudited started deadline kind r (false, s) h free = record {
    complete = h;
    free = free refl;
  }
  locked-IsAudited started deadline kind r (true, s) h free = within-IsAudited deadline kind r _ h

  take_lock_lem :
      (deadline : Option ℕ) (s : State W)
      → IsAudited s
      → let x = take_lock host deadline s in
        (map request_of x.1.audit ≡ x.1.calls) × (x.0 ≡ false → x.1.held ≡ false)
  unfolding take_lock
  take_lock_lem none s a = (a.complete, λ e. cc)
  take_lock_lem (some d) s a =
      if_both
        (λ (x : Bool × State W).
          (map request_of x.1.audit ≡ x.1.calls) × (x.0 ≡ false → x.1.held ≡ false))
        (leb d (host.monotonic s.world).0) (λ late. (a.complete, λ e. a.free))
        (λ early. (a.complete, λ e. e))

  -- A forge for a session keeps it, whether it runs, times out or raises.
  pub forge-IsAudited :
      (deadline : Option ℕ) (kind : String) (r : Request) (s : State W)
      → IsAudited s
      → IsAudited (forge host deadline (some session) kind r s).1
  unfolding forge
  forge-IsAudited deadline kind r s a =
      let s1 = record s { world = (host.monotonic s.world).1 } in
      let h = take_lock_lem deadline s1 (record { complete = a.complete; free = a.free }) in
      locked-IsAudited _ deadline kind r (take_lock host deadline s1) h.0 h.1
