-- ===== src/Agent/Forge/Runs.antt =====
-- What a forge runs: its request, once, or nothing.
use sigil_pi.Prelude.{
  ℕ, ◌-◌, ◌≡◌, refl, String, Bool, true, false, Option, none, some, [], ◌∷◌, ◌++◌, ◌⊎◌, inl, inr,
  ap, ◌∙◌, leb, if_both,
}
use sigil_pi.Agent.Forge.{
  Request, Ran, finished, refused, broke, Forged, timeout, Host, State, broken, past, after_run,
  execute, within, take_lock, locked, forge,
}

module _ {W : Type 0} (host : Host W) (session : String) (kind : String) (r : Request) where
  calls-broken : (x : Bool × State W) → (broken host (some session) kind r x).1.calls ≡ x.1.calls
  calls-broken (true, s) = refl
  calls-broken (false, s) = refl

  calls-after_run :
      (deadline : Option ℕ) (x : Ran × State W)
      → (after_run host deadline (some session) kind r x).1.calls ≡ x.1.calls
  unfolding after_run
  calls-after_run deadline (finished out, s) = refl
  calls-after_run deadline (refused code message, s) = refl
  calls-after_run none (broke, s) = refl
  calls-after_run (some d) (broke, s) = calls-broken (past host (some d) s)

  -- The request is run once, or the answer is that the deadline has passed.
  abbrev pub RunsOnce : State W → Forged × State W → Type 0
  RunsOnce s (answer, s') =
      ((answer ≡ timeout) × (s'.calls ≡ s.calls)) ⊎ (s'.calls ≡ s.calls ++ r ∷ [])

  within-RunsOnce :
      (deadline : Option ℕ) (s : State W)
      → RunsOnce s (within host deadline (some session) kind r s)
  unfolding within execute
  within-RunsOnce none s = inr (calls-after_run none (execute host none r s))
  within-RunsOnce (some d) s =
      if_both (RunsOnce s) (leb d (host.monotonic s.world).0) (λ late. inl (refl, refl))
        (λ early. inr (
          calls-after_run (some d) (
            execute host (some (d - (host.monotonic s.world).0)) r
              (record s { world = (host.monotonic s.world).1 }))))

  locked-RunsOnce :
      (started : ℕ) (deadline : Option ℕ) (x : Bool × State W)
      → RunsOnce x.1 (locked host started deadline (some session) kind r x)
  unfolding locked
  locked-RunsOnce started deadline (false, s) = inl (refl, refl)
  locked-RunsOnce started deadline (true, s) = within-RunsOnce deadline _

  calls-take_lock :
      (deadline : Option ℕ) (s : State W) → (take_lock host deadline s).1.calls ≡ s.calls
  unfolding take_lock
  calls-take_lock none s = refl
  calls-take_lock (some d) s =
      if_both (λ (x : Bool × State W). x.1.calls ≡ s.calls) (leb d (host.monotonic s.world).0)
        (λ late. refl) (λ early. refl)

  pub forge-RunsOnce :
      (deadline : Option ℕ) (s : State W) → RunsOnce s (forge host deadline (some session) kind r s)
  unfolding forge
  forge-RunsOnce deadline s =
      let s1 = record s { world = (host.monotonic s.world).1 } in
      let c = calls-take_lock deadline s1 in
      elim (locked-RunsOnce (host.monotonic s.world).0 deadline (take_lock host deadline s1)) [
        | inl (late, e) ↦ inl (late, e ∙ c)
        | inr e ↦ inr (e ∙ ap (λ cs. cs ++ r ∷ []) c)
      ]
