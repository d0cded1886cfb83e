-- ===== src/Product/Retention/Sweeps.antt =====
-- What a sweep of the retention leaves: no file without the row of its session.
use sigil_pi.Prelude.{
  ℕ, ◌-◌, ◌≡◌, arith, String, Bool, true, false, some, List, [], ◌∷◌, any, Each, eq_iff, if_both,
  Option-cases, inl, inr,
}
use sigil_pi.Prelude.Table.{delete_where}
use sigil_pi.Product.Quota.{Usage}
use sigil_pi.Product.Quota.Registry.{
  registered_session_inactive, remove_registered_session, candidate, doomed_row,
}
use sigil_pi.Product.Quota.Reconcile.{inactive_sessions}
use sigil_pi.Product.Schedules.{internal_active}
use sigil_pi.Product.Data.{Stored}
use sigil_pi.Product.Data.Attribution.{IsAttributed, StemIs, delete-IsAttributed}
use sigil_pi.Product.Retention.{
  Host, Monitor, Sweep, erase, sweep_locked, sweep_row, sweep_rows, sweep_schedules, sweep, tick,
}

-- A row's session is the digest of its internal name.
abbrev pub NamesItself : (String → String) → Usage → Type 0
NamesItself digest u = (i : String) → u.internal_session ≡ some i → u.session ≡ digest i

-- Each file belongs to a registered session, and each row names its session.
pub record IsSound (digest : String → String) (s : Stored) : Type 0 where
  pub named : Each (NamesItself digest) s.db.session_usage
  pub attributed : IsAttributed digest s.db.session_usage s.files

-- A session that the check finds is named by the digest of its internal name.
candidate_named :
    (digest : String → String) (tenant session internal : String) (cutoff : ℕ) (rows : List Usage)
    → Each (NamesItself digest) rows
    → any (candidate tenant session internal cutoff) rows ≡ true
    → session ≡ digest internal
candidate_named digest tenant session internal cutoff [] named h = absurd (ground arith)
candidate_named digest tenant session internal cutoff (u ∷ rest) named h =
    elim (Option-cases u.internal_session) [
      | inl e ↦
          ground (arith, e, candidate_named digest tenant session internal cutoff rest named.1)
      | inr (i, e) ↦ ground (
        arith,
        e,
        named.0 i,
        eq_iff i internal,
        eq_iff u.session session,
        candidate_named digest tenant session internal cutoff rest named.1,
      )
    ]

doomed_row-StemIs :
    (digest : String → String) (tenant session k : String) (cutoff : ℕ) (rows : List Usage)
    → session ≡ k
    → Each (NamesItself digest) rows
    → Each (StemIs digest (doomed_row tenant session (some cutoff)) k) rows
doomed_row-StemIs digest tenant session k cutoff [] e named = tt
doomed_row-StemIs digest tenant session k cutoff (u ∷ rest) e named = (
  λ i gone has. ground (arith, named.0 i has, eq_iff u.session session),
  doomed_row-StemIs digest tenant session k cutoff rest e named.1,
)

Each-delete_where :
    (digest : String → String) (p : Usage → Bool) (rows : List Usage)
    → Each (NamesItself digest) rows
    → Each (NamesItself digest) (delete_where p rows)
unfolding delete_where
Each-delete_where digest p [] h = tt
Each-delete_where digest p (u ∷ rest) h =
    if_both (Each (NamesItself digest)) (p u) (λ gone. Each-delete_where digest p rest h.1)
      (λ stays. (h.0, Each-delete_where digest p rest h.1))

erase-IsSound :
    (digest : String → String) (cutoff : ℕ) (tenant session internal : String) (s : Stored)
    → IsSound digest s
    → registered_session_inactive tenant session internal cutoff s.db ≡ true
    → IsSound digest (erase digest cutoff tenant session internal s).1
unfolding erase remove_registered_session registered_session_inactive
erase-IsSound digest cutoff tenant session internal s sound inactive =
    let rows = s.db.session_usage in
    record {
      named = Each-delete_where digest (doomed_row tenant session (some cutoff)) rows sound.named;
      attributed =
          delete-IsAttributed digest (doomed_row tenant session (some cutoff)) internal rows s.files
            (doomed_row-StemIs digest tenant session (digest internal) cutoff rows
              (candidate_named digest tenant session internal cutoff rows sound.named inactive)
              sound.named)
            sound.attributed;
    }

sweep_locked-IsSound :
    (digest : String → String) (legacy now cutoff : ℕ) (tenant session internal : String)
    (s : Stored)
    → IsSound digest s
    → IsSound digest (sweep_locked digest legacy now cutoff tenant session internal s).1
unfolding sweep_locked
sweep_locked-IsSound digest legacy now cutoff tenant session internal s sound =
    let P = λ (x : (ℕ × ℕ) × Stored). IsSound digest x.1 in
    if_both P (registered_session_inactive tenant session internal cutoff s.db)
      (λ inactive.
        if_both P (internal_active tenant internal legacy cutoff now s.schedules) (λ active. sound)
          (λ idle. erase-IsSound digest cutoff tenant session internal s sound inactive))
      (λ used. sound)

module _ {W : Type 0} (host : Host W) where
  -- What other threads keep while a lock is awaited.
  abbrev pub Others : Type 0
  Others =
      (internal : String) (s : Stored) (w : W)
      → IsSound host.digest s
      → IsSound host.digest (host.hold internal s w).0

  module _ (others : Others) (now cutoff : ℕ) where
    sweep_row-IsSound :
        (u : Usage) (internal : String) (s : Sweep W)
        → IsSound host.digest s.stored
        → IsSound host.digest (sweep_row host now cutoff u internal s).stored
    unfolding sweep_row
    sweep_row-IsSound u internal s sound =
        let held = host.hold internal s.stored s.world in
        sweep_locked-IsSound host.digest (host.schedules_mtime held.1) now cutoff u.tenant u.session
          internal held.0 (others internal s.stored s.world sound)

    sweep_rows-IsSound :
        (rows : List Usage) (s : Sweep W)
        → IsSound host.digest s.stored
        → IsSound host.digest (sweep_rows host now cutoff rows s).stored
    unfolding sweep_rows
    sweep_rows-IsSound [] s sound = sound
    sweep_rows-IsSound (u ∷ rest) s sound = elim (Option-cases u.internal_session) [
      | inl e ↦ rw (e, sweep_rows) sound
      | inr (internal, e) ↦
          rw (e, sweep_rows)
            (sweep_rows-IsSound rest (sweep_row host now cutoff u internal s)
              (sweep_row-IsSound u internal s sound))
    ]

    sweep_schedules-IsSound :
        (s : Sweep W)
        → IsSound host.digest s.stored
        → IsSound host.digest (sweep_schedules host now cutoff s).stored
    unfolding sweep_schedules
    sweep_schedules-IsSound s sound =
        if_both (λ (x : Sweep W). IsSound host.digest x.stored) s.raised (λ raised. sound)
          (λ fine. record { named = sound.named; attributed = sound.attributed })

    sweep-IsSound :
        (checked : Bool) (stored : Stored) (w : W)
        → IsSound host.digest stored
        → IsSound host.digest (sweep host checked now cutoff stored w).stored
    unfolding sweep
    sweep-IsSound false stored w sound = sound
    sweep-IsSound true stored w sound = sweep_schedules-IsSound _ (
        sweep_rows-IsSound (inactive_sessions cutoff stored.db)
          (record { sessions = 0; schedules = 0; raised = false; stored = stored; world = w })
          sound)

  -- Where each file belongs to a registered session and each row's key is the digest of its session's
  -- internal name, and other threads keep that, a tick keeps it too, whether it deletes or raises.
  pub tick-IsSound :
      (retention : ℕ) (m : Monitor) (stored : Stored) (w : W)
      → Others
      → IsSound host.digest stored
      → IsSound host.digest (tick host retention m stored w).2
  unfolding tick
  tick-IsSound retention m stored w others sound =
      let now = host.time w in
      let checked = host.precheck now.1 in
      sweep-IsSound others now.0 (now.0 - retention) checked.0 stored checked.1 sound
