-- ===== src/Product/Retention.antt =====
-- `ProductRetentionMonitor.tick` of product_service.py. What other threads do to the stores while a
-- session's lock is awaited is the host's. The stores can be read and written. Times are in
-- microseconds, and the cut-off of a sweep is at least 0.
pub mod Sweeps
mod Tests
use sigil_pi.Prelude.{
  ℕ, ◌+◌, ◌-◌, String, Bool, true, false, not, Option, none, some, List, [], ◌∷◌, if◌then◌else◌,
}
use sigil_pi.Product.Quota.{Db, Usage}
use sigil_pi.Product.Quota.Registry.{registered_session_inactive, remove_registered_session}
use sigil_pi.Product.Quota.Reconcile.{inactive_sessions}
use sigil_pi.Product.Schedules.{internal_active, remove_internal, remove_inactive}
use sigil_pi.Product.Data.{Stored, delete_internal_files}

pub record Host (W : Type 0) : Type 0 where
  pub time : W → ℕ × W
  -- `self.precheck`, true where there is none
  pub precheck : W → Bool × W
  pub hold : String → Stored → W → Stored × W
  -- the modification time of the file of the schedules
  pub schedules_mtime : W → ℕ
  pub digest : String → String

-- The counters of the monitor.
pub record Monitor : Type 0 where
  pub checks : ℕ
  pub failures : ℕ
  pub deleted_sessions : ℕ
  pub deleted_schedules : ℕ
  pub last_check : Option ℕ
  pub healthy : Bool

-- Where the loop stands: what it has deleted, whether it raised, and the stores.
pub record Sweep (W : Type 0) : Type 0 where
  pub sessions : ℕ
  pub schedules : ℕ
  pub raised : Bool
  pub stored : Stored
  pub world : W

abbrev pub one_if : Bool → ℕ
one_if true = 1
one_if false = 0

-- The files and schedules of a session, and its row last.
unfoldable pub erase : (String → String) → ℕ → String → String → String → Stored → (ℕ × ℕ) × Stored
erase digest cutoff tenant session internal s =
    let (count, schedules) = remove_internal tenant internal s.schedules in
    let files = delete_internal_files digest internal s.files in
    let (removed, db) = remove_registered_session tenant session (some cutoff) s.db in
    ((one_if removed, count), record { files = files; schedules = schedules; db = db })

-- Under the session's lock, where it is looked at again.
unfoldable pub sweep_locked :
    (String → String) → ℕ → ℕ → ℕ → String → String → String → Stored → (ℕ × ℕ) × Stored
unfolding erase
sweep_locked digest legacy now cutoff tenant session internal s =
    if registered_session_inactive tenant session internal cutoff s.db
    then if internal_active tenant internal legacy cutoff now s.schedules
      then ((0, 0), s)
      else erase digest cutoff tenant session internal s
    else ((0, 0), s)

module _ {W : Type 0} (host : Host W) where
  -- One session of the loop, with its lock.
  unfoldable pub sweep_row : ℕ → ℕ → Usage → String → Sweep W → Sweep W
  unfolding sweep_locked
  sweep_row now cutoff u internal s =
      let (held, w) = host.hold internal s.stored s.world in
      let (counts, stored) =
        sweep_locked host.digest (host.schedules_mtime w) now cutoff u.tenant u.session internal
          held in
      record s {
        sessions = s.sessions + counts.0;
        schedules = s.schedules + counts.1;
        stored = stored;
        world = w;
      }

  -- The loop over the sessions that the first query found. A row with no internal name raises.
  unfoldable pub sweep_rows : ℕ → ℕ → List Usage → Sweep W → Sweep W
  unfolding sweep_row
  sweep_rows now cutoff [] s = s
  sweep_rows now cutoff (u ∷ rest) s = elim u.internal_session [
    | none ↦ record s { raised = true }
    | some internal ↦ sweep_rows now cutoff rest (sweep_row now cutoff u internal s)
  ]

  -- The schedules' own way, unless the loop has raised.
  unfoldable pub sweep_schedules : ℕ → ℕ → Sweep W → Sweep W
  sweep_schedules now cutoff s =
      let (count, schedules) =
        remove_inactive (host.schedules_mtime s.world) cutoff now s.stored.schedules in
      if s.raised then s else record s {
        schedules = s.schedules + count;
        stored = record s.stored { schedules = schedules };
      }

  unfoldable pub sweep : Bool → ℕ → ℕ → Stored → W → Sweep W
  unfolding sweep_rows sweep_schedules
  sweep checked now cutoff stored w =
      let start : Sweep W = record {
        sessions = 0;
        schedules = 0;
        raised = not checked;
        stored = stored;
        world = w;
      } in
      if checked
      then sweep_schedules now cutoff
          (sweep_rows now cutoff (inactive_sessions cutoff stored.db) start)
      else start

  abbrev pub counted : ℕ → Sweep W → Monitor → Monitor
  counted now s m = record {
    checks = m.checks + 1;
    failures = m.failures + one_if s.raised;
    deleted_sessions = m.deleted_sessions + s.sessions;
    deleted_schedules = m.deleted_schedules + s.schedules;
    last_check = some now;
    healthy = not s.raised;
  }

  -- The answer, the monitor, and the stores.
  unfoldable pub tick : ℕ → Monitor → Stored → W → Bool × Monitor × Stored × W
  unfolding sweep
  tick retention m stored w =
      let (now, w1) = host.time w in
      let (checked, w2) = host.precheck w1 in
      let s = sweep checked now (now - retention) stored w2 in
      (not s.raised, counted now s m, s.stored, s.world)
