-- ===== src/Runtime/Ownership.antt =====
-- No compiler runs but the one that is installed.
use sigil_pi.Prelude.{ℕ, ◌≤◌, ◌≡◌, ◌⊎◌, false, Option, none, some, List, [], ◌∷◌, length}
use sigil_pi.Runtime.{Failure, Outcome, returned, raised, Host, Settings, State}

abbrev pub installed : {C : Type 0} → Option C → List C
installed none = []
installed (some c) = c ∷ []

module _ {C W Request Result : Type 0} (host : Host C W Request Result) (settings : Settings) where
  -- No compiler runs but the given one, which may have ended.
  abbrev pub Only : (W → List C) → Option C → W → Type 0
  Only live o w = (live w ≡ []) ⊎ (live w ≡ installed o)

  -- From a world to another nothing starts: what runs is what ran, or it has ended.
  abbrev pub Ends : (W → List C) → W → W → Type 0
  Ends live w w' = (live w' ≡ live w) ⊎ (live w' ≡ [])

  -- What the operating system does: `live` are the compilers that run. Where none runs, a spawn starts
  -- one or none; a kill and a close end the compiler that they are called for; nothing else starts any,
  -- and each operation may end the one that runs, as a client's timeout does and as one that exits by
  -- itself.
  pub record Tracks (live : W → List C) : Type 0 where
    pub clock : (w : W) → Ends live w (host.clock w).1
    pub spawned :
        (w : W) (c : C)
        → live w ≡ []
        → (host.spawn w).0 ≡ returned c
        → Only live (some c) (host.spawn w).1
    pub not_spawned :
        (w : W) (e : Failure) → (host.spawn w).0 ≡ raised e → Ends live w (host.spawn w).1
    pub initialize : (c : C) (t : ℕ) (w : W) → Ends live w (host.initialize c t w).1
    pub client_forge :
        (c : C) (r : Request) (t : Option ℕ) (w : W) → Ends live w (host.client_forge c r t w).1
    pub kill : (c : C) (w : W) → Only live (some c) w → live (host.kill c w) ≡ []
    pub close_client : (c : C) (w : W) → Only live (some c) w → live (host.close_client c w) ≡ []
    pub set_closed : (w : W) → Ends live w (host.set_closed w)

  module _ (live : W → List C) (tracks : Tracks live) where
    -- No compiler runs but the installed client's, and an endpoint that is not given up has had at most
    -- `unhealthy_budget` replacements in its window.
    pub record Owns (s : State C) (w : W) : Type 0 where
      pub owned : Only live s.client w
      pub budget : s.unrecoverable ≡ false → length s.unhealthy ≤ settings.unhealthy_budget

    abbrev Kept : Option Failure × State C × W → Type 0
    Kept r = Owns r.1 r.2

    abbrev KeptBy : Outcome Result × State C × W → Type 0
    KeptBy r = Owns r.1 r.2
