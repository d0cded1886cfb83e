-- ===== src/Agent/Retry/Laws.antt =====
-- Which forge of the retry loop is answered.
use sigil_pi.Prelude.{
  ℕ, zero, suc, ◌+◌, ◌*◌, ◌≤◌, ◌≡◌, ◌⊎◌, inl, inr, refl, ap, ◌∙◌, arith, Bool, true, false, none,
  some, [], ◌∷◌, Bool-cases,
}
use sigil_pi.Agent.Retry.{
  llm_error_code, llm_error_is_transient, Outcome, reply, failed, passed, Forged, ended, raised,
  after_forge, attempts, llm,
}

-- The outcome that a forge has by itself.
abbrev pub outcome_of : Forged → Outcome
outcome_of (ended out []) = reply out
outcome_of (ended out (c ∷ err)) = failed (c ∷ err)
outcome_of (raised e) = passed e

-- An error worth a retry.
abbrev pub transient : Forged → Bool
transient (raised e) = false
transient (ended out []) = false
transient (ended out (c ∷ err)) = llm_error_is_transient (llm_error_code (c ∷ err))

module _ {W : Type 0} (forge : W → Forged × W) (sleep : ℕ → W → W) where
  -- The world of the forge with number `k`, after that many forges and sleeps; each delay is four
  -- times the one before.
  unfoldable pub world_of : ℕ → ℕ → W → W
  world_of zero delay w = w
  world_of (suc k) delay w = world_of k (delay * 4) (sleep delay (forge w).1)

  -- The first `k` forges fail for a transient reason.
  abbrev pub Transient : ℕ → ℕ → W → Type 0
  Transient zero delay w = Unit {0}
  Transient (suc k) delay w =
      (transient (forge w).0 ≡ true) × Transient k (delay * 4) (sleep delay (forge w).1)

  -- The loop answers as the forge with number `k` does, the first that is not a transient failure or
  -- the last that is allowed, and counts `k` retries.
  pub record Answers (left delay retries : ℕ) (w : W) (r : Outcome × ℕ × W) : Type 0 where
    pub k : ℕ
    pub bounded : k ≤ left
    pub before : Transient k delay w
    pub last : (transient (forge (world_of k delay w)).0 ≡ false) ⊎ (k ≡ left)
    pub outcome : r.0 ≡ outcome_of (forge (world_of k delay w)).0
    pub counted : r.1 ≡ retries + k
    pub world : r.2 ≡ (forge (world_of k delay w)).1

  at_once :
      (left delay retries : ℕ) (w : W) (r : Outcome × ℕ × W)
      → r ≡ (outcome_of (forge w).0, retries, (forge w).1)
      → (transient (forge w).0 ≡ false) ⊎ (0 ≡ left)
      → Answers left delay retries w r
  unfolding world_of
  at_once left delay retries w r e last = record {
    k = 0;
    bounded = omega arith;
    before = tt;
    last = last;
    outcome = ap (λ x. x.0) e;
    counted = ap (λ x. x.1) e ∙ omega arith;
    world = ap (λ x. x.2) e;
  }

  after_forge-none :
      (retries : ℕ) (f : Forged × W) → after_forge none retries f ≡ (outcome_of f.0, retries, f.1)
  unfolding after_forge
  after_forge-none retries (raised e, w) = refl
  after_forge-none retries (ended out [], w) = refl
  after_forge-none retries (ended out (c ∷ err), w) = refl

  after_forge-cases :
      (next : W → Outcome × ℕ × W) (retries : ℕ) (f : Forged × W)
      → ((transient f.0 ≡ false)
          × (after_forge (some next) retries f ≡ (outcome_of f.0, retries, f.1)))
        ⊎ ((transient f.0 ≡ true) × (after_forge (some next) retries f ≡ next f.1))
  unfolding after_forge
  after_forge-cases next retries (raised e, w) = inl (refl, refl)
  after_forge-cases next retries (ended out [], w) = inl (refl, refl)
  after_forge-cases next retries (ended out (c ∷ err), w) =
      elim (Bool-cases (transient (ended out (c ∷ err)))) [
        | inl again ↦ inr (again, rw again)
        | inr final ↦ inl (final, rw final)
      ]

  attempts-Answers :
      (left delay retries : ℕ) (w : W)
      → Answers left delay retries w (attempts forge sleep left delay retries w)
  unfolding attempts world_of
  attempts-Answers zero delay retries w =
      at_once 0 delay retries w _ (after_forge-none retries (forge w)) (inr refl)
  attempts-Answers (suc left) delay retries w =
      elim (after_forge-cases
        (λ w'. attempts forge sleep left (delay * 4) (retries + 1) (sleep delay w')) retries
        (forge w)) [
          | inl (final, e) ↦ at_once (suc left) delay retries w _ e (inl final)
          | inr (again, e) ↦
              let ih = attempts-Answers left (delay * 4) (retries + 1) (sleep delay (forge w).1) in
              record {
                k = suc ih.k;
                bounded = omega (arith, ih.bounded);
                before = (again, ih.before);
                last = elim ih.last [ inl final ↦ inl final | inr all ↦ inr (ap suc all) ];
                outcome = ap (λ x. x.0) e ∙ ih.outcome;
                counted = ap (λ x. x.1) e ∙ ih.counted ∙ omega arith;
                world = ap (λ x. x.2) e ∙ ih.world;
              }
        ]

  -- Where each forge ends, a call of the model ends: it forges at most `llm_retries + 1` times and
  -- answers as its last forge, which is the first that succeeds, raises, or fails for a reason that is
  -- not transient, or the last that is allowed; between two forges it sleeps, 500 ms at first and four
  -- times as long each time, and it counts each retry.
  pub llm-Answers :
      (llm_retries retries : ℕ) (w : W)
      → Answers llm_retries 500 retries w (llm forge sleep llm_retries retries w)
  unfolding llm
  llm-Answers llm_retries retries w = attempts-Answers llm_retries 500 retries w
