-- ===== src/Product/Service/Release.antt =====
-- What a chat turn leaves behind, on every way out: its capacity is given back, and the counts of
-- requests and turns in progress are what they were.
use sigil_pi.Prelude.{
  ℕ, sym, ◌+◌, ◌≡◌, refl, arith, String, Option, none, some, List, ◌∷◌, ◌⊎◌, inl, inr, if_both,
  subst, ap, ◌∙◌,
}
use sigil_pi.Prelude.Dict.{Dict}
use sigil_pi.Prelude.Table.{find_where, delete_where}
use sigil_pi.Product.Errors.{Reply}
use sigil_pi.Product.Auth.{Principal}
use sigil_pi.Product.Quota.{Limits, Db, lease_is, expired}
use sigil_pi.Product.Quota.Turns.{Settlement, acquire_turn, admitted, new_lease}
use sigil_pi.Product.Quota.Settle.{turn_leases-settle_turn}
use sigil_pi.Product.Schedules.{internal_session_of}
use sigil_pi.Product.Concurrency.{left_for, take_turn}
use sigil_pi.Product.Metrics.{turn_finish}
use sigil_pi.Product.Service.{Host, Config, State}
use sigil_pi.Product.Service.Chat.{
  Capacity, lease, place, Handled, placed, leased, settlement_of, acquire, with_entered, release,
  run_turn, finish_turn, with_capacity, after_acquire, chat_turn,
}
use sigil_pi.Product.Service.Capacity.{
  WithinLimit, left_for-give_back, delete_where-new_lease, acquire_turn_cases,
}

module _ {W : Type 0} (host : Host W) (config : Config) where
  -- What a turn keeps: the counts of what is in progress, the semaphores, and the leases, of which it
  -- drops none or those that have expired at `now`.
  pub record Keeps (now : ℕ) (s s' : State W) : Type 0 where
    pub active_requests : s'.active_requests ≡ s.active_requests
    pub active_turns : s'.metrics.active_turns ≡ s.metrics.active_turns
    pub places :
        (t : String)
        → left_for config.max_concurrent_turns t s'.semaphores
          ≡ left_for config.max_concurrent_turns t s.semaphores
    pub leases :
        (s'.db.turn_leases ≡ s.db.turn_leases)
        ⊎ (s'.db.turn_leases ≡ delete_where (expired now) s.db.turn_leases)

  -- The wall clock's reading with which the turn acquires its capacity.
  abbrev pub acquired_at : State W → ℕ
  acquired_at s = (host.time (host.monotonic s.world).1).0

  -- The lease that the turn's acquisition would write.
  abbrev pub lease_id_of : State W → String
  lease_id_of s = (host.uuid (host.time (host.monotonic s.world).1).1).0

  record Same (s s' : State W) : Type 0 where
    active_requests : s'.active_requests ≡ s.active_requests
    active_turns : s'.metrics.active_turns ≡ s.metrics.active_turns
    semaphores : s'.semaphores ≡ s.semaphores
    db : s'.db ≡ s.db

  -- A turn that was entered touches neither the semaphores nor the database, and is left again.
  run_turn-Same :
      (internal_session message : String) (tools : List String) (deadline : ℕ) (s : State W)
      → Same s
          (run_turn host config internal_session message tools deadline
            (record s { active_requests = s.active_requests + 1 })).1
  unfolding run_turn finish_turn turn_finish
  run_turn-Same internal_session message tools deadline s = record {
    active_requests = omega arith;
    active_turns = omega arith;
    semaphores = refl;
    db = refl;
  }

  -- The answer left a state that kept all but the capacity, and gave that back.
  abbrev Released : Capacity → State W → Handled W → Type 0
  Released capacity s answer =
      (settlement : Settlement) × (s' : State W) × (answer.2
        ≡ release host config capacity settlement s')
      × Same s s'

  -- The capacity of a turn is released at its end, whether it was entered or not.
  with_capacity-Released :
      (session internal_session message : String) (tools : List String) (deadline : ℕ)
      (capacity : Capacity) (s : State W)
      → Released capacity s
          (with_capacity host config session internal_session message tools deadline capacity s)
  unfolding with_capacity
  with_capacity-Released session internal_session message tools deadline capacity s =
      let turn =
        run_turn host config internal_session message tools deadline
          (record s { active_requests = s.active_requests + 1 }) in
      if_both
        (λ o.
          Released capacity s
            (with_entered host config session internal_session message tools deadline capacity s o))
        s.draining
        (λ closed. (
          settlement_of internal_session none none,
          s,
          refl,
          record { active_requests = refl; active_turns = refl; semaphores = refl; db = refl },
        ))
        (λ open_. (
          settlement_of internal_session turn.0.0.usage turn.0.0.footprint,
          turn.1,
          refl,
          run_turn-Same internal_session message tools deadline s,
        ))

  Keeps-place :
      (now : ℕ) (t : String) (s : State W) (left : Dict ℕ) (answer : Handled W)
      → WithinLimit config.max_concurrent_turns s.semaphores
      → take_turn config.max_concurrent_turns t s.semaphores ≡ some left
      → Released (place t) (record s { semaphores = left }) answer
      → Keeps now s answer.2
  unfolding release
  Keeps-place now t s left answer within e (settlement, s', same_end, same) = rw same_end (record {
    active_requests = same.active_requests;
    active_turns = same.active_turns;
    places = λ u.
        rw same.semaphores
          (left_for-give_back config.max_concurrent_turns t u s.semaphores left within e);
    leases = inl (ap (λ (d : Db). d.turn_leases) same.db);
  })

  Keeps-lease :
      (limits : Limits) (id tenant : String) (now : ℕ) (s s1 : State W) (answer : Handled W)
      → config.quota ≡ some limits
      → Released (lease id) s1 answer
      → find_where (lease_is id) s.db.turn_leases ≡ none
      → s1.db.turn_leases
        ≡ new_lease limits id tenant now ∷ delete_where (expired now) s.db.turn_leases
      → s1.active_requests ≡ s.active_requests
      → s1.metrics.active_turns ≡ s.metrics.active_turns
      → s1.semaphores ≡ s.semaphores
      → Keeps now s answer.2
  unfolding release
  Keeps-lease limits id tenant now s s1 answer set (settlement, s', same_end, same) fresh written
        requests turns places =
      rw (same_end, set, release)
        (record {
          active_requests = same.active_requests ∙ requests;
          active_turns = same.active_turns ∙ turns;
          places = λ u. rw (same.semaphores ∙ places) refl;
          leases = inr (
              turn_leases-settle_turn host.digest limits id settlement _ s'.db
              ∙ ap (λ (d : Db). delete_where (lease_is id) d.turn_leases) same.db
              ∙ ap (delete_where (lease_is id)) written
              ∙ delete_where-new_lease limits id tenant now s.db.turn_leases fresh);
        })

  Keeps-refused :
      (now : ℕ) (s : State W) (db : Db) (w : W)
      → db ≡ s.db
      → Keeps now s (record s { db = db; world = w })
  Keeps-refused now s db w same = record {
    active_requests = refl;
    active_turns = refl;
    places = λ t. refl;
    leases = inl (ap (λ (d : Db). d.turn_leases) same);
  }

  module _ (p : Principal) (session internal_session message : String) (tools : List String)
      (deadline : ℕ) where
    Keeps-unlimited :
        (now : ℕ) (s : State W) (o : Option (Dict ℕ))
        → WithinLimit config.max_concurrent_turns s.semaphores
        → take_turn config.max_concurrent_turns p.tenant_id s.semaphores ≡ o
        → Keeps now s
            (after_acquire host config session internal_session message tools deadline
              (placed host config p.tenant_id s o)).2
    unfolding after_acquire
    Keeps-unlimited now s none within e = Keeps-refused now s s.db s.world refl
    Keeps-unlimited now s (some left) within e =
        let s' = record s { semaphores = left } in
        Keeps-place now p.tenant_id s left
          (with_capacity host config session internal_session message tools deadline
            (place p.tenant_id) s')
          within e
          (with_capacity-Released session internal_session message tools deadline
            (place p.tenant_id) s')

    Keeps-limited :
        (s : State W) (limits : Limits) (id : String) (now : ℕ) (w : W)
        → config.quota ≡ some limits
        → find_where (lease_is id) s.db.turn_leases ≡ none
        → Keeps now s
            (after_acquire host config session internal_session message tools deadline (
              leased host config id w s (
                acquire_turn host.digest limits id p.tenant_id (some internal_session) now s.db))).2
    unfolding after_acquire admitted
    Keeps-limited s limits id now w set fresh =
        let run = λ (r : Reply String × Db).
          Keeps now s
            (after_acquire host config session internal_session message tools deadline
              (leased host config id w s r)).2 in
        let s1 = record s {
          db =
              admitted host.digest limits id (host.digest p.tenant_id) (some internal_session) now
                s.db;
          world = w;
        } in
        elim (acquire_turn_cases host.digest limits id p.tenant_id (some internal_session) now
          s.db) [
            | inl (e, same) ↦ subst run (sym same) (Keeps-refused now s s.db w refl)
            | inr same ↦ subst run (sym same) (
                Keeps-lease limits id (host.digest p.tenant_id) now s s1
                  (with_capacity host config session internal_session message tools deadline
                    (lease id) s1)
                  set
                  (with_capacity-Released session internal_session message tools deadline (lease id)
                    s1)
                  fresh refl refl refl refl)
          ]

    Keeps-acquired :
        (s : State W) (o : Option Limits)
        → config.quota ≡ o
        → WithinLimit config.max_concurrent_turns s.semaphores
        → find_where (lease_is (host.uuid (host.time s.world).1).0) s.db.turn_leases ≡ none
        → Keeps
            (host.time s.world).0
            s
            (after_acquire host config session internal_session message tools deadline
              (acquire host config o p internal_session s)).2
    unfolding acquire
    Keeps-acquired s none set within fresh = Keeps-unlimited _ s _ within refl
    Keeps-acquired s (some limits) set within fresh = Keeps-limited s limits _ _ _ set fresh

  -- A chat turn whose lease id is new keeps the counts and the places, whichever way it ends, and of
  -- the leases it drops none or those that have expired at the clock's reading with which it acquires
  -- its capacity.
  pub chat_turn-Keeps :
      (p : Principal) (session message : String) (tools : List String) (s : State W)
      → WithinLimit config.max_concurrent_turns s.semaphores
      → find_where (lease_is (lease_id_of s)) s.db.turn_leases ≡ none
      → Keeps (acquired_at s) s (chat_turn host config p session message tools s).2
  unfolding chat_turn
  chat_turn-Keeps p session message tools s within fresh =
      let h =
        Keeps-acquired p session (internal_session_of host.digest p.tenant_id session) message tools
          _ (record s { world = (host.monotonic s.world).1 }) config.quota refl within fresh in
      record {
        active_requests = h.active_requests;
        active_turns = h.active_turns;
        places = h.places;
        leases = h.leases;
      }
