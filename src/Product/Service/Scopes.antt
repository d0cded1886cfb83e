-- ===== src/Product/Service/Scopes.antt =====
-- What `ProductService.dispatch` does for whom.
use sigil_pi.Prelude.{
  ℕ, ◌≡◌, ◌≢◌, refl, arith, String, Bool, true, false, Option, none, some, List, ◌⊎◌, inl, inr,
  Option-cases, Bool-cases, if_both, ◌∙◌,
}
use sigil_pi.Product.Errors.{Reply, ok, err}
use sigil_pi.Product.Auth.{Principal, includes, authenticate}
use sigil_pi.Product.Quota.{Limits, admit_request}
use sigil_pi.Product.Service.{
  Fault, product, internal, Try, done, fault, Host, Config, State, Payload, Timing,
}
use sigil_pi.Product.Service.Paths.{
  Route, chat, health, ready, version, metrics, prometheus, list_schedules, create_schedule,
  unknown, delete_schedule, export_session, delete_session, route_of, scope_of,
}
use sigil_pi.Product.Service.Chat.{Handled}
use sigil_pi.Product.Service.Dispatch.{
  Request, Response, handle, serve, Admission, emergency, emergency_ready, admission_for, admission,
  after_admission, respond, answered, request_id_of, dispatch,
}

-- The principal has the permission of the route.
abbrev pub MayUse : Principal → Route → Type 0
MayUse p route = (scope : String) × (scope_of route ≡ some scope) × (includes p.scopes scope ≡ true)

module _ {W : Type 0} (host : Host W) (config : Config) where
  -- What the host does to find out who asks, and whether the request is admitted, leaves what it keeps
  -- of tenants alone: reading the clocks, making an id, and opening the quota database.
  pub record Reads {A : Type 0} (tenants : W → A) : Type 0 where
    pub monotonic : (w : W) → tenants (host.monotonic w).1 ≡ tenants w
    pub time : (w : W) → tenants (host.time w).1 ≡ tenants w
    pub uuid : (w : W) → tenants (host.uuid w).1 ≡ tenants w
    pub database_up : (w : W) → tenants (host.database_up w).1 ≡ tenants w

  -- What is kept of tenants is as it was, but for the counts of requests.
  pub record Spares {A : Type 0} (tenants : W → A) (s s' : State W) : Type 0 where
    pub schedules : s'.schedules ≡ s.schedules
    pub semaphores : s'.semaphores ≡ s.semaphores
    pub turn_leases : s'.db.turn_leases ≡ s.db.turn_leases
    pub token_windows : s'.db.token_windows ≡ s.db.token_windows
    pub session_usage : s'.db.session_usage ≡ s.db.session_usage
    pub world : tenants s'.world ≡ tenants s.world

  -- What an answer says of a request that its principal, if any, may not make.
  pub record IsRefused {A : Type 0} (tenants : W → A) (s : State W) (answer : Response × State W)
      : Type 0 where
    pub is_error : answer.0.error_class ≢ none
    pub spares : Spares tenants s answer.1

  -- The principal that a request of this state would be taken for.
  abbrev pub caller : Request → State W → Reply Principal
  caller r s =
      authenticate host.digest host.encoded_len config.credentials r.authorization
        (host.time (host.uuid s.world).1).0

  module _ {A : Type 0} (tenants : W → A) (reads : Reads tenants) where
    -- An error that left what is kept of tenants alone.
    record Refuses (s : State W) (h : Handled W) : Type 0 where
      cause : Fault
      failed : h.0 ≡ fault cause
      spares : Spares tenants s h.2

    unchanged : (s : State W) → Spares tenants s s
    unchanged s = record {
      schedules = refl;
      semaphores = refl;
      turn_leases = refl;
      token_windows = refl;
      session_usage = refl;
      world = refl;
    }

    -- Only the world changed, and it kept what it holds of tenants.
    moved :
        (s : State W) (w : W)
        → tenants w ≡ tenants s.world
        → Spares tenants s (record s { world = w })
    moved s w e = record {
      schedules = refl;
      semaphores = refl;
      turn_leases = refl;
      token_windows = refl;
      session_usage = refl;
      world = e;
    }

    Spares-trans :
        (s s1 s2 : State W) → Spares tenants s s1 → Spares tenants s1 s2 → Spares tenants s s2
    Spares-trans s s1 s2 h k = record {
      schedules = k.schedules ∙ h.schedules;
      semaphores = k.semaphores ∙ h.semaphores;
      turn_leases = k.turn_leases ∙ h.turn_leases;
      token_windows = k.token_windows ∙ h.token_windows;
      session_usage = k.session_usage ∙ h.session_usage;
      world = k.world ∙ h.world;
    }

    -- A request is counted in the windows of requests alone.
    admit_request-Spares :
        (limits : Limits) (tenant : String) (now : ℕ) (s : State W) (w : W)
        → tenants w ≡ tenants s.world
        → Spares tenants s
            (record s { db = (admit_request host.digest limits tenant now s.db).1; world = w })
    unfolding admit_request
    admit_request-Spares limits tenant now s w e = record {
      schedules = refl;
      semaphores = refl;
      turn_leases = ground arith;
      token_windows = ground arith;
      session_usage = ground arith;
      world = e;
    }

    refused_as : (f : Fault) (t : Option Timing) (s : State W) → Refuses s (fault f, t, s)
    refused_as f t s = record { cause = f; failed = refl; spares = unchanged s }

    handle_unknown :
        (route : Route) (flag : Bool) (p : Principal) (body : List ℕ) (s : State W)
        → scope_of route ≡ none
        → Refuses s (handle host config route flag p body s)
    unfolding handle
    handle_unknown unknown flag p body s e = refused_as _ none s
    handle_unknown chat flag p body s e = cc
    handle_unknown health flag p body s e = cc
    handle_unknown ready flag p body s e = cc
    handle_unknown version flag p body s e = cc
    handle_unknown metrics flag p body s e = cc
    handle_unknown prometheus flag p body s e = cc
    handle_unknown list_schedules flag p body s e = cc
    handle_unknown create_schedule flag p body s e = cc
    handle_unknown (delete_schedule rest) flag p body s e = cc
    handle_unknown (export_session rest) flag p body s e = cc
    handle_unknown (delete_session rest) flag p body s e = cc

    serve_cases :
        (route : Route) (flag : Bool) (p : Principal) (body : List ℕ) (s : State W)
        → MayUse p route ⊎ Refuses s (serve host config route flag p body s)
    unfolding serve
    serve_cases route flag p body s = elim (Option-cases (scope_of route)) [
      | inl open_ ↦ inr (rw (open_, serve) (handle_unknown route flag p body s open_))
      | inr (scope, e) ↦ elim (Bool-cases (includes p.scopes scope)) [
        | inl granted ↦ inl (scope, e, granted)
        | inr missing ↦ inr (rw (e, missing, serve) (refused_as _ none s))
      ]
    ]

    after_admission_cases :
        (route : Route) (p : Principal) (body : List ℕ) (a : Admission host config)
        → MayUse p route ⊎ Refuses a.1 (after_admission host config route p body a).1
    unfolding after_admission
    after_admission_cases route p body (fault f, s) = inr (refused_as f none s)
    after_admission_cases route p body (done ((true, retry_after), flag), s) =
        serve_cases route flag p body s
    after_admission_cases route p body (done ((false, retry_after), flag), s) =
        inr (refused_as _ none s)

    emergency-Spares :
        (limits : Limits) (route : Route) (p : Principal) (s : State W)
        → Spares tenants s (emergency host config limits route p s).1
    unfolding emergency
    emergency-Spares limits ready p s =
        if_both
          (λ (o : Option Fault). Spares tenants s (emergency_ready host config limits p s o).1)
          (includes p.scopes "ops:read")
          (λ _. record {
            schedules = refl;
            semaphores = refl;
            turn_leases = refl;
            token_windows = refl;
            session_usage = refl;
            world = reads.monotonic s.world;
          })
          (λ _. unchanged s)
    emergency-Spares limits _ p s = unchanged s

    admission_for-Spares :
        (o : Option Limits) (route : Route) (p : Principal) (s : State W)
        → Spares tenants s (admission_for host config o route p s).1
    unfolding admission_for
    admission_for-Spares none route p s = record {
      schedules = refl;
      semaphores = refl;
      turn_leases = refl;
      token_windows = refl;
      session_usage = refl;
      world = reads.monotonic s.world;
    }
    admission_for-Spares (some limits) route p s =
        let w = (host.database_up s.world).1 in
        if_both (λ (a : Admission host config). Spares tenants s a.1) (host.database_up s.world).0
          {b = emergency host config limits route p (record s { world = w })}
          (λ up.
            admit_request-Spares limits p.tenant_id _ s _
              (reads.time w ∙ reads.database_up s.world))
          (λ down.
            Spares-trans s (record s { world = w }) _ (moved s w (reads.database_up s.world))
              (emergency-Spares limits route p (record s { world = w })))

    respond_fault :
        (id : String) (p : Option Principal) (h : String × Try (ℕ × Payload) × Option Timing)
        (f : Fault)
        → h.1 ≡ fault f
        → (respond host config id p h).error_class ≢ none
    respond_fault id p (name, done (status, payload), t) f e h = cc
    respond_fault id p (name, fault (product x), t) f e h = cc
    respond_fault id p (name, fault internal, t) f e h = cc

    answered_cases :
        (r : Request) (id : String) (who : Reply Principal) (s : State W)
        → ((p : Principal) × (who ≡ ok p) × MayUse p (route_of r.method r.path))
          ⊎ IsRefused tenants s (answered host config r id who s)
    unfolding answered admission
    answered_cases r id (err e) s = inr (record {
      is_error = respond_fault id none ("unknown", fault (product e), none) (product e) refl;
      spares = unchanged s;
    })
    answered_cases r id (ok p) s =
        let route = route_of r.method r.path in
        let a = admission host config route p s in
        let after = after_admission host config route p r.body a in
        let same = admission_for-Spares config.quota route p s in
        elim (after_admission_cases route p r.body a) [
          | inl may ↦ inl (p, refl, may)
          | inr h ↦ inr (record {
            is_error = respond_fault id (some p) (after.0, after.1.0, after.1.1) h.cause h.failed;
            spares = Spares-trans s a.1 _ same h.spares;
          })
        ]

    -- Where reading the clocks, making an id and opening the quota database change nothing of what the
    -- host keeps of tenants: a request's caller is a principal with the permission of its route, or the
    -- request is answered with an error and leaves that as it was, and the schedules, the semaphores, and
    -- the leases, tokens and sizes of the quota database.
    pub dispatch-IsAuthorized :
        (valid_id : String → Bool) (r : Request) (s : State W)
        → ((p : Principal) × (caller r s ≡ ok p) × MayUse p (route_of r.method r.path))
          ⊎ IsRefused tenants s (dispatch host config valid_id r s)
    unfolding dispatch
    dispatch-IsAuthorized valid_id r s =
        let id = request_id_of host config valid_id r (host.uuid s.world).0 in
        elim (answered_cases r id (caller r s)
          (record s { world = (host.time (host.uuid s.world).1).1 })) [
            | inl may ↦ inl may
            | inr h ↦
                let all_along =
                  Spares-trans s _ _ (moved s _ (reads.time _ ∙ reads.uuid s.world)) h.spares in
                inr (record {
                  is_error = h.is_error;
                  spares = record {
                    schedules = all_along.schedules;
                    semaphores = all_along.semaphores;
                    turn_leases = all_along.turn_leases;
                    token_windows = all_along.token_windows;
                    session_usage = all_along.session_usage;
                    world = all_along.world;
                  };
                })
          ]
