-- ===== src/Agent/Schedules/Firing.antt =====
-- Which entries a tick of the agent's scheduler fires.
use sigil_pi.Prelude.{
  ℕ, ◌≡◌, refl, arith, String, false, not, ◌&&◌, List, [], ◌∷◌, eq_iff, eq_refl, if◌then◌else◌,
  Bool-cases, inl, inr, ap, ◌∙◌,
}
use sigil_pi.Prelude.Dict.{Dict}
use sigil_pi.Agent.Schedules.{
  Entry, due_at, entries, mark_run, Host, Call, call_of, mid_turn, discard, tick_entries, tick,
}

-- The entries of a snapshot that are due and have no turn under way.
unfoldable pub fired : ℕ → List String → Dict Entry → List Call
fired now running [] = []
fired now running ((name, e) ∷ rest) =
    let later = fired now running rest in
    if due_at e now && not (mid_turn running name) then call_of (name, e) ∷ later else later

-- A key that was not there is gone again.
discard-absent :
    (name : String) (ks : List String) → mid_turn ks name ≡ false → discard name ks ≡ ks
unfolding discard
discard-absent name [] e = refl
discard-absent name (k ∷ ks) e =
    ground (arith, eq_iff k name, eq_iff name k, discard-absent name ks)

discard-added :
    (name : String) (ks : List String) → mid_turn ks name ≡ false → discard name (name ∷ ks) ≡ ks
unfolding discard
discard-added name ks e = rw (eq_refl name) (discard-absent name ks e)

module _ {W : Type 0} (host : Host W) where
  tick_entries_fires :
      (now : ℕ) (snapshot : Dict Entry) (running : List String) (store : Dict Entry) (w : W)
      → let t = tick_entries host now snapshot running store w in
        (t.calls ≡ fired now running snapshot) × (t.running ≡ running)
  unfolding tick_entries fired
  tick_entries_fires now [] running store w = (refl, refl)
  tick_entries_fires now ((name, e) ∷ rest) running store w =
      let turned = host.turn e.session e.message store w in
      let read = host.time turned.1 in
      elim (Bool-cases (due_at e now && not (mid_turn running name))) [
        | inr waits ↦ rw waits (tick_entries_fires now rest running store w)
        | inl fires ↦
            let free : discard name (name ∷ running) ≡ running =
              discard-added name running (ground arith) in
            let h =
              tick_entries_fires now rest (discard name (name ∷ running))
                (mark_run name read.0 turned.0) read.1 in
            rw fires (
              ap (λ cs. call_of (name, e) ∷ cs)
                  (h.0 ∙ ap (λ (r : List String). fired now r rest) free),
              h.1 ∙ free,
            )
      ]

  -- A tick calls the agent once for each entry that is due and not under way, in the order of the
  -- sorted entries and never for another, however often the entry's interval has passed and whatever the turns
  -- and other threads do; and no name stays under way.
  pub tick_fires :
      (running : List String) (store : Dict Entry) (w : W)
      → let t = tick host running store w in
        (t.calls ≡ fired (host.time w).0 running (entries store)) × (t.running ≡ running)
  unfolding tick
  tick_fires running store w =
      tick_entries_fires (host.time w).0 (entries store) running store (host.time w).1
